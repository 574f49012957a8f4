-- ===== src/Gateway/Access.antt =====
-- What each service of modules/gateway does to the access of one address.
use sdpgateway_verification.Prelude.{
  not, ◌&&◌, ◌||◌, ◌≡◌, arith, ℤ, int_eq_iff, Bytes, bytes_eq_iff,
}
use sdpgateway_verification.Map.{bytes_key}
use sdpgateway_verification.Map.Laws.{find-insert, find-erase}
use sdpgateway_verification.Messages.{BlackListOpReq, NoticeReq}
use sdpgateway_verification.Iptables.{is_ip_in_white_list}
use sdpgateway_verification.Iptables.Members.{op_white_list_members}
use sdpgateway_verification.Gateway.{
  Gateway, controller_black_list_is_in, gate_func_black_list_op, gate_func_notice,
}
use sdpgateway_verification.Gateway.Guarded.{IsGuarded}
use sdpgateway_verification.Gateway.Perimeter.{Access, bans, lifts, closes}

-- The gateway as the perimeter sees it.
unfoldable pub access_of : Bytes → Gateway → Access
access_of ip g = record {
  opened = is_ip_in_white_list ip g.app_tcp_port g.whitelist;
  banned = controller_black_list_is_in ip g.app_tcp_port g;
}

pub Access_eq : {a b : Access} → a.opened ≡ b.opened → a.banned ≡ b.banned → a ≡ b
Access_eq {a} {b} o k = cc

-- What the black list request does to an address's access.
module _ (ip : Bytes) (req : BlackListOpReq) (g : Gateway) where
  same_port : (gate_func_black_list_op req g).1.app_tcp_port ≡ g.app_tcp_port
  unfolding gate_func_black_list_op
  same_port = ground arith

  still_opened :
      IsGuarded ip g
      → is_ip_in_white_list ip g.app_tcp_port (gate_func_black_list_op req g).1.whitelist
        ≡ (not (bans ip req) && is_ip_in_white_list ip g.app_tcp_port g.whitelist)
  unfolding gate_func_black_list_op
  still_opened v =
      ground (arith, op_white_list_members ip req.ip g.app_tcp_port g.whitelist v.step.entry)

  still_banned :
      IsGuarded ip g
      → controller_black_list_is_in ip g.app_tcp_port (gate_func_black_list_op req g).1
        ≡ (bans ip req || (not (lifts ip req) && controller_black_list_is_in ip g.app_tcp_port g))
  unfolding gate_func_black_list_op controller_black_list_is_in
  still_banned v = ground (
    arith,
    v.black_entry,
    bytes_eq_iff ip req.ip,
    int_eq_iff g.app_tcp_port g.app_tcp_port,
    find-insert ip req.ip g.app_tcp_port g.controller_black_list,
    find-erase ip req.ip g.controller_black_list,
  )

  pub black_list-access :
      IsGuarded ip g
      → access_of ip (gate_func_black_list_op req g).1 ≡ record {
        opened = not (bans ip req) && is_ip_in_white_list ip g.app_tcp_port g.whitelist;
        banned =
            bans ip req || (not (lifts ip req) && controller_black_list_is_in ip g.app_tcp_port g);
      }
  unfolding access_of
  black_list-access v =
      Access_eq (ground (arith, same_port, still_opened v))
        (ground (arith, same_port, still_banned v))

-- What the application's notice does to an address's access.
module _ (ip : Bytes) (junk : ℤ) (from_ip : Bytes) (req : NoticeReq) (g : Gateway) where
  pub notice-access :
      IsGuarded ip g
      → access_of ip (gate_func_notice junk from_ip req g).1 ≡ record {
        opened = not (closes ip from_ip req) && is_ip_in_white_list ip g.app_tcp_port g.whitelist;
        banned = controller_black_list_is_in ip g.app_tcp_port g;
      }
  unfolding access_of gate_func_notice controller_black_list_is_in
  notice-access v =
      Access_eq
        (ground (arith, op_white_list_members ip req.op_ip g.app_tcp_port g.whitelist v.step.entry))
        (ground arith)
