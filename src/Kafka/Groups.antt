-- ===== src/Kafka/Groups.antt =====
-- The loop of a consumer (`consume` of src/kafka/kafka.service.ts): each message goes to the handler, and
-- its offset plus one is committed once the handler is done. kafkajs delivers again from the committed
-- offset when a handler throws.
use e_commerce_order_platfor.Common.{
  ⊤, ℕ, zero, suc, ◌+◌, ◌≡◌, refl, ap, ◌∙◌, List, [], ◌∷◌, ◌++◌, drop, length, Action, pure, ◌>>◌,
  Result, ok, err, Exception, arith, All,
}

-- What the group committed, and the state that the handler works on.
pub record Group (S : Type 0) : Type 0 where
  pub committed : ℕ
  pub state : S

abbrev pub handled : {S : Type 0} → Result ⊤ × S → ℕ → Result ⊤ × Group S
handled (ok u, s) offset = (ok tt, record { committed = offset + 1; state = s })
handled (err e, s) offset = (err e, record { committed = offset; state = s })

from_here : (n : ℕ) → n ≡ n + 0
from_here n = omega arith

one_more : (n k : ℕ) → n + 1 + k ≡ n + suc k
one_more n k = omega arith

zero_plus : (n : ℕ) → 0 + n ≡ n
zero_plus n = omega arith

abbrev at_offset : {S : Type 0} → ℕ → S → Group S
at_offset n s = record { committed = n; state = s }

drop-append : {M : Type 0} (xs ys : List M) → drop (length xs) (xs ++ ys) ≡ ys
drop-append [] ys = refl
drop-append (x ∷ xs) ys = drop-append xs ys

module _ {S M : Type 0} where
  -- `eachMessage`, of the message at an offset that is the committed one.
  abbrev pub each_message : (M → Action S ⊤) → M → Action (Group S) ⊤
  each_message handler m g = handled (handler m g.state) g.committed

  -- The messages of a partition from the committed offset on, up to the first that fails.
  abbrev pub consume_from : (M → Action S ⊤) → List M → Action (Group S) ⊤
  consume_from handler [] = pure tt
  consume_from handler (m ∷ ms) = each_message handler m >> consume_from handler ms

  -- The consumer on the whole log of a partition, started `n` times.
  abbrev pub restarts : (M → Action S ⊤) → List M → ℕ → Group S → Group S
  restarts handler log zero g = g
  restarts handler log (suc n) g =
      restarts handler log n (consume_from handler (drop g.committed log) g).1

  -- What the handler does with messages, one after the other, where it succeeds.
  abbrev pub run_all : (M → Action S ⊤) → List M → S → S
  run_all handler [] s = s
  run_all handler (m ∷ ms) s = run_all handler ms (handler m s).1

  -- A message that the handler always takes, and one that it never takes and that changes nothing.
  abbrev pub IsTaken : (M → Action S ⊤) → M → Type 0
  IsTaken handler m = (s : S) → (handler m s).0 ≡ ok tt

  abbrev pub IsPoison : (M → Action S ⊤) → M → Type 0
  IsPoison handler m = (s : S) → (e : Exception) × (handler m s ≡ (err e, s))

  consume_to_poison :
      (handler : M → Action S ⊤) (pre : List M) (m : M) (post : List M) (g : Group S)
      → All (IsTaken handler) pre
      → IsPoison handler m
      → (consume_from handler (pre ++ m ∷ post) g).1
        ≡ record { committed = g.committed + length pre; state = run_all handler pre g.state }
  consume_to_poison handler [] m post g taken poison =
      let (e, thrown) = poison g.state in
      rw thrown (ap (λ n. at_offset n g.state) (from_here g.committed))
  consume_to_poison handler (x ∷ pre) m post g taken poison =
      let first = taken.0 g.state in
      let next = at_offset (g.committed + 1) (handler x g.state).1 in
      let rest = consume_to_poison handler pre m post next taken.1 poison in
      rw first (
        rest
        ∙ ap (λ n. at_offset n (run_all handler pre (handler x g.state).1))
            (one_more g.committed (length pre)))

  poison_stays :
      (handler : M → Action S ⊤) (pre : List M) (m : M) (post : List M) (n : ℕ) (s : S)
      → IsPoison handler m
      → restarts handler (pre ++ m ∷ post) n (at_offset (length pre) s) ≡ at_offset (length pre) s
  poison_stays handler pre m post zero s poison = refl
  poison_stays handler pre m post (suc n) s poison =
      let (e, thrown) = poison s in
      rw (drop-append pre (m ∷ post), thrown) (poison_stays handler pre m post n s poison)

  -- Where the handler takes each of the messages before one that it never takes: a consumer that starts at the
  -- beginning of the partition has, after its first start and after any number of starts more, done exactly
  -- the messages before it, each once and in order, and committed no offset past it.
  pub poison_message_blocks :
      (handler : M → Action S ⊤) (pre : List M) (m : M) (post : List M) (n : ℕ) (s : S)
      → All (IsTaken handler) pre
      → IsPoison handler m
      → restarts handler (pre ++ m ∷ post) (suc n) (record { committed = 0; state = s })
        ≡ record { committed = length pre; state = run_all handler pre s }
  poison_message_blocks handler pre m post n s taken poison =
      let first = consume_to_poison handler pre m post (at_offset 0 s) taken poison in
      let reached =
        first ∙ ap (λ k. at_offset k (run_all handler pre s)) (zero_plus (length pre)) in
      rw reached (poison_stays handler pre m post n (run_all handler pre s) poison)
