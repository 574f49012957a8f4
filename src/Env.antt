-- ===== src/Env.antt =====
-- What the services take from outside the repository's sources: OpenSSL and the generated codecs.
use sdpgateway_verification.OpenSsl.{OpenSsl}
use sdpgateway_verification.Messages.{
  Codec, Voucher, VoucherPacket, Ticket, TicketPacket, GetAccessReq, GetAccessRsp, RegisterAppReq,
  BlackListOpReq, NoticeReq, ReverseReq, ReverseRsp, EmptyRsp,
}

pub record Env (K : Type 0) : Type 0 where
  pub ssl : OpenSsl K
  pub voucher : Codec Voucher
  pub voucher_packet : Codec VoucherPacket
  pub ticket : Codec Ticket
  pub ticket_packet : Codec TicketPacket
  pub get_access_req : Codec GetAccessReq
  pub get_access_rsp : Codec GetAccessRsp
  pub register_app_req : Codec RegisterAppReq
  pub black_list_op_req : Codec BlackListOpReq
  pub notice_req : Codec NoticeReq
  pub reverse_req : Codec ReverseReq
  pub reverse_rsp : Codec ReverseRsp
  pub empty_rsp : Codec EmptyRsp
