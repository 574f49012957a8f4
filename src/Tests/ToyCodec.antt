-- ===== src/Tests/ToyCodec.antt =====
-- Codecs for the messages, in place of the generated ones: each field as its length and its bytes.
use sdpgateway_verification.Prelude.{
  ℕ, zero, suc, ◌≡◌, refl, ap, List, [], ◌∷◌, ◌++◌, ℤ, pos, negsuc, Bytes, length, take, drop,
  take-append, drop-append,
}
use sdpgateway_verification.Messages.{
  Codec, RoundTrips, Voucher, VoucherPacket, Ticket, TicketPacket, AccessItem, GetAccessReq,
  GetAccessRsp, BlackListOpReq, NoticeReq, ReverseReq, ReverseRsp, EmptyRsp,
}

-- A field in front of what follows it.
abbrev pub put : Bytes → Bytes → Bytes
put b rest = length b ∷ b ++ rest

unfoldable pub first : Bytes → Bytes
first [] = []
first (n ∷ r) = take n r

unfoldable pub after : Bytes → Bytes
after [] = []
after (n ∷ r) = drop n r

pub first-put : (b rest : Bytes) → first (put b rest) ≡ b
unfolding first
first-put b rest = take-append (length b) b rest refl

pub after-put : (b rest : Bytes) → after (put b rest) ≡ rest
unfolding after
after-put b rest = drop-append (length b) b rest refl

unfoldable pub num : Bytes → ℕ
num [] = 0
num (n ∷ r) = n

unfoldable pub rest_of : Bytes → Bytes
rest_of [] = []
rest_of (n ∷ r) = r

abbrev pub put_int : ℤ → Bytes → Bytes
put_int (pos n) rest = 0 ∷ n ∷ rest
put_int (negsuc n) rest = 1 ∷ n ∷ rest

unfoldable pub int : Bytes → ℤ
int (zero ∷ n ∷ r) = pos n
int (suc m ∷ n ∷ r) = negsuc n
int _ = pos 0

pub int-put : (i : ℤ) (rest : Bytes) → int (put_int i rest) ≡ i
unfolding int
int-put (pos n) rest = refl
int-put (negsuc n) rest = refl

pub rest_of-put_int : (i : ℤ) (rest : Bytes) → rest_of (rest_of (put_int i rest)) ≡ rest
unfolding rest_of
rest_of-put_int (pos n) rest = refl
rest_of-put_int (negsuc n) rest = refl

abbrev pub toy_ticket : Codec Ticket
toy_ticket = record {
  serialize = λ t. t.timestamp ∷ t.random ∷ t.valid_seconds ∷ t.ip;
  parse = λ b. record {
    timestamp = num b;
    random = num (rest_of b);
    valid_seconds = num (rest_of (rest_of b));
    ip = rest_of (rest_of (rest_of b));
  };
}

pub toy_ticket-RoundTrips : RoundTrips toy_ticket
unfolding num rest_of
toy_ticket-RoundTrips = record { parse-serialize = λ t. refl }

abbrev pub toy_ticket_packet : Codec TicketPacket
toy_ticket_packet = record {
  serialize = λ p. put p.enc_data (put p.md5_data p.sign_data);
  parse =
      λ b. record { enc_data = first b; md5_data = first (after b); sign_data = after (after b) };
}

pub toy_ticket_packet-RoundTrips : RoundTrips toy_ticket_packet
toy_ticket_packet-RoundTrips = record { parse-serialize = λ p. simp (first-put, after-put) }

abbrev pub toy_voucher_packet : Codec VoucherPacket
toy_voucher_packet = record {
  serialize = λ p. put p.enc_data p.md5_data;
  parse = λ b. record { enc_data = first b; md5_data = after b };
}

pub toy_voucher_packet-RoundTrips : RoundTrips toy_voucher_packet
toy_voucher_packet-RoundTrips = record { parse-serialize = λ p. simp (first-put, after-put) }

abbrev pub toy_voucher : Codec Voucher
toy_voucher = record {
  serialize =
      λ v. v.timestamp ∷ v.random ∷ put v.account.acc (put v.account.pwd (put v.mac v.address));
  parse = λ b.
      (let texts = rest_of (rest_of b) in
        record {
          timestamp = num b;
          random = num (rest_of b);
          account = record { acc = first texts; pwd = first (after texts) };
          mac = first (after (after texts));
          address = after (after (after texts));
        });
}

pub toy_voucher-RoundTrips : RoundTrips toy_voucher
unfolding num rest_of
toy_voucher-RoundTrips = record { parse-serialize = λ v. simp (first-put, after-put) }

abbrev pub toy_get_access_req : Codec GetAccessReq
toy_get_access_req = record {
  serialize = λ r. put r.account.acc r.account.pwd;
  parse = λ b. record { account = record { acc = first b; pwd = after b } };
}

pub toy_get_access_req-RoundTrips : RoundTrips toy_get_access_req
toy_get_access_req-RoundTrips = record { parse-serialize = λ r. simp (first-put, after-put) }

abbrev pub put_item : AccessItem → Bytes → Bytes
put_item a rest = put_int a.app.gate_udp_port (
    put_int a.app.app_tcp_port (
      put a.ip (
        put a.app.appname (
          put a.app.description (
            put a.ticket_packet.enc_data
              (put a.ticket_packet.md5_data (put a.ticket_packet.sign_data rest)))))))

abbrev pub past_ints : Bytes → Bytes
past_ints b = rest_of (rest_of (rest_of (rest_of b)))

abbrev pub item_of : Bytes → AccessItem
item_of b =
    let texts = past_ints b in
    record {
      ip = first texts;
      app = record {
        gate_udp_port = int b;
        app_tcp_port = int (rest_of (rest_of b));
        appname = first (after texts);
        description = first (after (after texts));
      };
      ticket_packet = record {
        enc_data = first (after (after (after texts)));
        md5_data = first (after (after (after (after texts))));
        sign_data = first (after (after (after (after (after texts)))));
      };
    }

abbrev pub past_item : Bytes → Bytes
past_item b = after (after (after (after (after (after (past_ints b))))))

unfoldable pub put_items : List AccessItem → Bytes
put_items [] = []
put_items (a ∷ l) = put_item a (put_items l)

unfoldable pub items_of : ℕ → Bytes → List AccessItem
items_of zero b = []
items_of (suc n) b = item_of b ∷ items_of n (past_item b)

items_of-put_items : (l : List AccessItem) → items_of (length l) (put_items l) ≡ l
unfolding items_of put_items
items_of-put_items [] = refl
items_of-put_items (a ∷ l) =
    simp (first-put, after-put, int-put, rest_of-put_int, items_of-put_items l)

abbrev pub toy_get_access_rsp : Codec GetAccessRsp
toy_get_access_rsp = record {
  serialize = λ r. length r.access_list ∷ put_items r.access_list;
  parse = λ b. record { access_list = items_of (num b) (rest_of b) };
}

pub toy_get_access_rsp-RoundTrips : RoundTrips toy_get_access_rsp
unfolding num rest_of
toy_get_access_rsp-RoundTrips = record {
  parse-serialize = λ r. ap (λ l. record { access_list = l }) (items_of-put_items r.access_list);
}

abbrev pub toy_black_list_op_req : Codec BlackListOpReq
toy_black_list_op_req = record {
  serialize = λ r. put_int r.op (put_int r.port r.ip);
  parse = λ b. record { op = int b; port = int (rest_of (rest_of b)); ip = past_ints b };
}

abbrev pub toy_notice_req : Codec NoticeReq
toy_notice_req = record {
  serialize = λ r. put_int r.op r.op_ip;
  parse = λ b. record { op = int b; op_ip = rest_of (rest_of b) };
}

abbrev pub toy_reverse_req : Codec ReverseReq
toy_reverse_req = record { serialize = λ r. r.str; parse = λ b. record { str = b } }

abbrev pub toy_reverse_rsp : Codec ReverseRsp
toy_reverse_rsp = record { serialize = λ r. r.str; parse = λ b. record { str = b } }

abbrev pub toy_empty_rsp : Codec EmptyRsp
toy_empty_rsp = record { serialize = λ r. []; parse = λ b. record {} }

pub toy_black_list_op_req-RoundTrips : RoundTrips toy_black_list_op_req
toy_black_list_op_req-RoundTrips = record { parse-serialize = λ r. simp (int-put, rest_of-put_int) }

pub toy_empty_rsp-RoundTrips : RoundTrips toy_empty_rsp
toy_empty_rsp-RoundTrips = record { parse-serialize = λ r. refl }
