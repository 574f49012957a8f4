-- ===== src/Iptables/Members.antt =====
-- Which addresses OpWhiteList leaves on the list.
use sdpgateway_verification.Prelude.{
  ◌≡◌, not, ◌&&◌, ◌||◌, arith, ℤ, int_eq_iff, Bytes, bytes_eq, bytes_eq_iff,
}
use sdpgateway_verification.Map.{bytes_key, find}
use sdpgateway_verification.Map.Laws.{find-insert, find-erase}
use sdpgateway_verification.Iptables.{
  WhiteList, op_white_list, is_ip_in_white_list, ip_white_list_add, ip_white_list_del,
}
use sdpgateway_verification.Iptables.Sync.{AtPort}

module _ (j ip : Bytes) (port : ℤ) (w : WhiteList)
    (entry : AtPort port (find j w.ip_white_list)) where
  -- Where the entry of the address `j`, if there is one, carries the port: adding `ip` lists it and
  -- deleting takes it off, whether the call returns 0 or -1, and neither moves another address.
  pub op_white_list_members :
      (is_ip_in_white_list j port (op_white_list ip_white_list_add ip port w).1
        ≡ (bytes_eq j ip || is_ip_in_white_list j port w))
      × (is_ip_in_white_list j port (op_white_list ip_white_list_del ip port w).1
          ≡ (not (bytes_eq j ip) && is_ip_in_white_list j port w))
  unfolding is_ip_in_white_list op_white_list
  op_white_list_members = (
    ground (
      arith,
      entry,
      find-insert j ip port w.ip_white_list,
      bytes_eq_iff j ip,
      int_eq_iff port port,
    ),
    ground (arith, entry, find-erase j ip w.ip_white_list, bytes_eq_iff j ip, int_eq_iff port port),
  )
