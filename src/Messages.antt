-- ===== src/Messages.antt =====
-- comm/proto/{spa,erpc}.proto: the messages as records of what their accessors return. The classes
-- are generated by the build, so how a message becomes bytes is a parameter, one codec for each.
use sdpgateway_verification.Prelude.{ℕ, ◌≡◌, List, ℤ, Bytes}

pub record Account : Type 0 where
  pub acc : Bytes
  pub pwd : Bytes

pub record Voucher : Type 0 where
  pub account : Account
  pub mac : Bytes
  pub address : Bytes
  pub timestamp : ℕ
  pub random : ℕ

pub record VoucherPacket : Type 0 where
  pub enc_data : Bytes
  pub md5_data : Bytes

pub record Ticket : Type 0 where
  pub ip : Bytes
  pub timestamp : ℕ
  pub random : ℕ
  pub valid_seconds : ℕ

pub record TicketPacket : Type 0 where
  pub enc_data : Bytes
  pub md5_data : Bytes
  pub sign_data : Bytes

pub record AppItem : Type 0 where
  pub gate_udp_port : ℤ
  pub app_tcp_port : ℤ
  pub appname : Bytes
  pub description : Bytes

pub record AccessItem : Type 0 where
  pub ip : Bytes
  pub app : AppItem
  pub ticket_packet : TicketPacket

pub record GetAccessReq : Type 0 where
  pub account : Account

pub record GetAccessRsp : Type 0 where
  pub access_list : List AccessItem

pub record RegisterAppReq : Type 0 where
  pub app_list : List AppItem

pub record BlackListOpReq : Type 0 where
  pub op : ℤ
  pub ip : Bytes
  pub port : ℤ

pub record NoticeReq : Type 0 where
  pub op : ℤ
  pub op_ip : Bytes

pub record ReverseReq : Type 0 where
  pub str : Bytes

pub record ReverseRsp : Type 0 where
  pub str : Bytes

-- A response with no field.
pub record EmptyRsp : Type 0 where

-- SerializeToString and ParseFromString of a message. The program ignores whether a parse fails, so
-- `parse` gives the message that it leaves.
pub record Codec (A : Type 0) : Type 0 where
  pub serialize : A → Bytes
  pub parse : Bytes → A

-- Parsing what was serialized gives the message back.
pub record RoundTrips {A : Type 0} (c : Codec A) : Type 0 where
  pub parse-serialize : (a : A) → c.parse (c.serialize a) ≡ a
