-- ===== src/Tests.antt =====
-- Concrete parameters, and the theorems at concrete inputs.
mod ToyCodec
mod ToyApps
mod ToyEnv
mod Crypto
mod Gateways
mod Perimeters
mod Servers
mod ApplicationServer
mod ControllerServer
mod Runs
mod Registrations
mod Controllers
mod Paths
mod Streams
mod Descriptors
