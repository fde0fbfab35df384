-- ===== src/Pipe/Service/Laws.antt =====
-- What the handler of a message does with the requests that are in the incoming buffer.
use rasperry_pi_os.Prelude.{
  ℕ, zero, suc, ◌+◌, ◌%◌, ◌^◌, ◌<◌, ◌≡◌, refl, ap, inl, inr, Bool, none, some, List, [], ◌∷◌, ◌++◌,
  arith, length, length-append, Outcome, returns, ◌>>=◌, Outcome-cases,
}
use mathlib.Core.List.{append_assoc}
use rasperry_pi_os.Pipe.Channel.{
  Buffer, Request, read_message, read_body, byte_at, encode, Holds, read_message-encode,
}
use rasperry_pi_os.Pipe.Processes.{Pipe}
use rasperry_pi_os.Pipe.Service.{Session, handle_request, serve}

-- The requests one after the other.
abbrev pub run : (List Pipe → Bool) → List Request → Session → Outcome Session
run memory [] s = returns s
run memory (r ∷ rs) s = handle_request memory r s >>= λ s'. run memory rs s'

-- The bytes of the requests.
abbrev pub encode_all : List Request → List ℕ
encode_all [] = []
encode_all (r ∷ rs) = encode r ++ encode_all rs

Holds-append :
    (xs ys : List ℕ) (buffer : Buffer) (p : ℕ)
    → Holds buffer p (xs ++ ys)
    → Holds buffer p xs × Holds buffer (p + length xs) ys
Holds-append [] ys buffer p h = let still : p + 0 ≡ p = omega arith in (tt, rw still h)
Holds-append (x ∷ xs) ys buffer p (at, h) =
    let (hx, hy) = Holds-append xs ys buffer (p + 1) h in
    let moved : p + suc (length xs) ≡ p + 1 + length xs = omega arith in ((at, hx), rw moved hy)

read_message-none :
    (incoming : Buffer) (p : ℕ)
    → p + 1 < 2 ^ 64
    → byte_at incoming p ≡ 0
    → read_message incoming p ≡ (none, p)
unfolding read_message read_body
read_message-none incoming p small at =
    let next : (p + 1) % 2 ^ 64 ≡ p + 1 = omega (arith, small) in
    rw (at, next) (ap (λ q. (none, q)) (omega (arith, small)))

-- The handler serves a list of requests that stand one after the other in the incoming buffer, with the
-- byte 0 after them, in their order, and stops in front of that byte: with fuel for one more than the
-- requests it does what the requests do one by one, a panic included.
pub serve-run :
    (memory : List Pipe → Bool) (rs : List Request) (fuel : ℕ) (incoming : Buffer) (p : ℕ)
    (s : Session)
    → length rs < fuel
    → p + length (encode_all rs) + 1 < 2 ^ 64
    → Holds incoming p (encode_all rs ++ (0 ∷ []))
    → serve memory fuel incoming p s
      ≡ some (run memory rs s >>= λ s'. returns (s', p + length (encode_all rs)))
unfolding serve
serve-run memory rs zero incoming p s h small holds = absurd (omega (arith, h))
serve-run memory [] (suc fuel) incoming p s h small holds =
    let ended = read_message-none incoming p (omega (arith, small)) holds.0 in
    rw (ap (λ a. a.0) ended, ap (λ a. a.1) ended, serve)
      (ap (λ q. some (returns (s, q))) (omega arith))
serve-run memory (r ∷ rs) (suc fuel) incoming p s h small holds =
    let total = length-append (encode r) (encode_all rs) in
    let here =
      Holds-append (encode r) (encode_all rs ++ (0 ∷ [])) incoming p
        (rw (← append_assoc (encode r) (encode_all rs) (0 ∷ [])) holds) in
    let message = read_message-encode r incoming p (omega (arith, small, total)) here.0 in
    rw (ap (λ a. a.0) message, serve)
      (elim (Outcome-cases (handle_request memory r s)) [
        | inl (s', e) ↦
            rw
              (
                e,
                ap (λ a. a.1) message,
                serve-run memory rs fuel incoming (p + length (encode r)) s' (omega (arith, h))
                    (omega (arith, small, total)) here.1,
              )
              (ap (λ q. some (run memory rs s' >>= λ s''. returns (s'', q))) (omega (arith, total)))
        | inr (x, e) ↦ rw e refl
      ])
