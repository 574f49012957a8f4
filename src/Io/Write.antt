-- ===== src/Io/Write.antt =====
-- HandleWrite of comm/erpc/erpc_handler.cpp: what it delivers.
use Prim.Native.Nat.{min}
use sdpgateway_verification.Prelude.{
  ℕ, zero, suc, ◌+◌, ◌≤◌, ◌<◌, ◌≡◌, ◌≢◌, refl, ◌∙◌, List, [], ◌∷◌, ◌++◌, arith, pos, Bytes, length,
  take, drop, done, length-drop, take_all, take-append-drop,
}
use sdpgateway_verification.Io.{
  WriteResult, wrote, write_failed, again, interrupted, other, write_loop, handle_write,
}

-- Once a round has less than the whole text to cut from, no later round completes it.
short_never_completes :
    (script : List WriteResult) (w : ℕ) (str : Bytes) (total : ℕ) (sent : Bytes) {s : Bytes}
    → length str < w
    → total < w
    → write_loop script w str total sent ≢ done (pos w, s)
unfolding write_loop
short_never_completes [] w str total sent {s} h t e = cc
short_never_completes (wrote n ∷ rs) w str total sent {s} h t e = ground (
  arith,
  length-drop total str,
  short_never_completes rs w (drop total str) (total + min n (length (drop total str)))
      (sent ++ take (min n (length (drop total str))) (drop total str)) {s = s},
)
short_never_completes (write_failed k again ∷ rs) w str total sent {s} h t e = ground arith
short_never_completes (write_failed k interrupted ∷ rs) w str total sent {s} h t e =
    ground
      (arith, length-drop total str, short_never_completes rs w (drop total str) total sent {s = s})
short_never_completes (write_failed k other ∷ rs) w str total sent {s} h t e = ground arith

no_text : (t : Bytes) → length t ≡ 0 → [] ≡ t
no_text [] h = refl
no_text (x ∷ t) h = absurd (omega arith)

-- The second round: the whole text, of which `total` bytes have gone out.
second_round :
    (script : List WriteResult) (instr : Bytes) (total : ℕ) {s : Bytes}
    → 0 < total
    → total < length instr
    → write_loop script (length instr) instr total (take total instr) ≡ done (pos (length instr), s)
    → s ≡ instr
unfolding write_loop
second_round [] instr total p h e = cc
second_round (wrote n ∷ rs) instr total {s} p h e =
    let rest = drop total instr in
    ground (
      arith,
      length-drop total instr,
      take-append-drop total instr,
      take_all (min n (length rest)) rest,
      short_never_completes rs (length instr) rest (total + min n (length rest))
          (take total instr ++ take (min n (length rest)) rest) {s = s},
    )
second_round (write_failed k again ∷ rs) instr total p h e = ground arith
second_round (write_failed k interrupted ∷ rs) instr total {s} p h e = ground (
  arith,
  length-drop total instr,
  short_never_completes rs (length instr) (drop total instr) total (take total instr) {s = s},
)
second_round (write_failed k other ∷ rs) instr total p h e = ground arith

first_rounds :
    (script : List WriteResult) (instr : Bytes) {s : Bytes}
    → write_loop script (length instr) instr 0 [] ≡ done (pos (length instr), s)
    → s ≡ instr
unfolding write_loop
first_rounds [] instr e = cc
first_rounds (wrote n ∷ rs) instr {s} e = ground (
  arith,
  take_all (min n (length instr)) instr,
  no_text instr,
  second_round rs instr (min n (length instr)) {s = s},
)
first_rounds (write_failed k again ∷ rs) instr {s} e = ground (arith, no_text instr)
first_rounds (write_failed k interrupted ∷ rs) instr {s} e =
    ground (arith, first_rounds rs instr {s = s})
first_rounds (write_failed k other ∷ rs) instr e = ground arith

-- Where HandleWrite returns the size of its text, it has sent the text and nothing else, whatever
-- the results of the writes.
pub handle_write_delivers :
    (script : List WriteResult) (instr : Bytes) {s : Bytes}
    → handle_write script instr ≡ done (pos (length instr), s)
    → s ≡ instr
unfolding handle_write
handle_write_delivers script instr {s} e = first_rounds script instr {s = s} e

-- Interrupted writes before a script.
abbrev pub after_interrupts : ℕ → List WriteResult → List WriteResult
after_interrupts zero rs = rs
after_interrupts (suc k) rs = write_failed 0 interrupted ∷ after_interrupts k rs

interrupts_pass :
    (k : ℕ) (rs : List WriteResult) (w : ℕ) (str : Bytes)
    → write_loop (after_interrupts k rs) w str 0 [] ≡ write_loop rs w str 0 []
unfolding write_loop
interrupts_pass zero rs w str = refl
interrupts_pass (suc k) rs w str = ground (arith, interrupts_pass k rs w str)

pub handle_write_completes :
    (k a n : ℕ) (instr : Bytes) (rs : List WriteResult)
    → 0 < a
    → a < length instr
    → length instr ≤ n
    → (handle_write (after_interrupts k (wrote n ∷ rs)) instr ≡ done (pos (length instr), instr))
      × (handle_write (after_interrupts k (wrote a ∷ wrote n ∷ rs)) instr
          ≡ done (pos (length instr), instr))
unfolding handle_write write_loop
handle_write_completes k a n instr rs p h full = (
  interrupts_pass k (wrote n ∷ rs) (length instr) instr
      ∙ ground (arith, take_all (min n (length instr)) instr),
  interrupts_pass k (wrote a ∷ wrote n ∷ rs) (length instr) instr
      ∙ ground (
        arith,
        length-drop a instr,
        take-append-drop a instr,
        take_all (min n (length (drop a instr))) (drop a instr),
        length-drop (min a (length instr)) instr,
        min_small a (length instr) h,
      ),
)
  where
    min_small : (a l : ℕ) → a < l → min a l ≡ a
    min_small a l h = omega arith

-- The cut of a round is that of all rounds so far, off what is already cut: if a first write takes
-- a part, and the next takes a part of the rest or is interrupted, then no further results make
-- HandleWrite return the size of the text.
pub handle_write_loses :
    (a b k : ℕ) (instr : Bytes) (rs : List WriteResult) (s : Bytes)
    → 0 < a
    → a + b < length instr
    → (handle_write (wrote a ∷ wrote b ∷ rs) instr ≢ done (pos (length instr), s))
      × (handle_write (wrote a ∷ write_failed k interrupted ∷ rs) instr
          ≢ done (pos (length instr), s))
unfolding handle_write write_loop
handle_write_loses a b k instr rs s p h = (
  λ e.
      let rest = drop (min a (length instr)) instr in
      ground (
        arith,
        length-drop (min a (length instr)) instr,
        short_never_completes rs (length instr) rest (min a (length instr) + min b (length rest))
            (take (min a (length instr)) instr ++ take (min b (length rest)) rest) {s = s},
      ),
  λ e.
      let rest = drop (min a (length instr)) instr in
      ground (
        arith,
        length-drop (min a (length instr)) instr,
        short_never_completes rs (length instr) rest (min a (length instr))
            (take (min a (length instr)) instr) {s = s},
      ),
)
