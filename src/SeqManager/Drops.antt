-- ===== src/SeqManager/Drops.antt =====
-- Dropped inputs leave no gap in the outputs, for `SeqManager<uint16_t>`.
use bifrost_sdk.Base.{
  ℕ, zero, suc, ◌+◌, ◌-◌, ◌%◌, ◌≤◌, ◌<◌, ◌≡◌, refl, ap, ◌∙◌, true, Bool-cases, inl, inr,
  if◌then◌else◌, some, List, [], ◌∷◌, ◌++◌, length, u16_mod, add16, arith, All,
}
use mathlib.Core.List.{append-nil, append_assoc}
use bifrost_sdk.Seq.{is_seq_higher_than}
use bifrost_sdk.SeqManager.Defs.{
  SeqManager, is_empty, clear_dropped, drop, sync, prepare, finish, input_prepared, input,
}
use bifrost_sdk.SeqManager.Behind.{
  max16, Behind, following, emplace_last, clear_loop_keeps, find-Behind, from_lower_bound-Behind,
  Behind-next, Behind-weaken, Near-append, Near-Behind, All-following, length-following,
}

abbrev pub drop_all : SeqManager → List ℕ → SeqManager
drop_all s [] = s
drop_all s (x ∷ xs) = drop_all (drop max16 s x) xs

-- One drop of the next number: it is remembered, and nothing else changes.
drop_next :
    (s : SeqManager) (x : ℕ)
    → s.max_input < u16_mod
    → s.base < u16_mod
    → x ≡ add16 s.max_input 1
    → All (Behind 32767 x) s.dropped
    → drop max16 s x ≡ record s { max_input = x; dropped = s.dropped ++ x ∷ [] }
unfolding drop clear_dropped is_seq_higher_than
drop_next s x m b e a =
    let l : x < u16_mod = omega arith in
    ground (
      arith,
      emplace_last x s.dropped l a,
      clear_loop_keeps x (s.dropped ++ x ∷ []) l (Near-append x s.dropped l a),
    )

drop_all-following :
    (n k : ℕ) (s : SeqManager)
    → s.max_input < u16_mod
    → s.base < u16_mod
    → k + n ≤ 32767
    → All (Behind k (add16 s.max_input 1)) s.dropped
    → drop_all s (following s.max_input n) ≡ record s {
      max_input = (s.max_input + n) % u16_mod;
      dropped = s.dropped ++ following s.max_input n;
    }
drop_all-following zero k s m b l a = ground (arith, append-nil s.dropped)
drop_all-following (suc n) k s m b l a =
    let x = add16 s.max_input 1 in
    let s' = record s { max_input = x; dropped = s.dropped ++ x ∷ [] } in
    ap (λ r. drop_all r (following x n))
      (drop_next s x m b refl (Behind-weaken k 32767 x s.dropped (omega arith) a))
    ∙ ground (
      arith,
      drop_all-following n (k + 1) s' (omega arith) b (omega arith)
          (Behind-next k x s.dropped (omega arith) (omega arith) a),
      append_assoc s.dropped (x ∷ []) (following x n),
    )

-- The cleanup removes nothing when a number above all the dropped ones comes in.
prepare_above :
    (s : SeqManager) (x : ℕ)
    → s.started ≡ true
    → s.base < u16_mod
    → x < u16_mod
    → is_seq_higher_than max16 x s.max_input ≡ true
    → All (Behind 32767 x) s.dropped
    → prepare max16 s x ≡ (if is_empty s.dropped then s else record s { max_input = x })
unfolding prepare clear_dropped
prepare_above s x st b h hi a =
    ground (arith, clear_loop_keeps x s.dropped h (Near-Behind x s.dropped h a))

-- What `Input` returns for such a number: the dropped ones are skipped.
output_above : SeqManager → ℕ → ℕ
output_above s x =
    ((x + (s.base + u16_mod - length s.dropped) % u16_mod) % u16_mod + s.initial_output) % u16_mod

input_prepared_above :
    (s : SeqManager) (x : ℕ) (ys : List ℕ)
    → s.dropped ≡ ys
    → s.base < u16_mod
    → x < u16_mod
    → length ys < u16_mod
    → All (Behind 32767 x) ys
    → (input_prepared max16 s x).1 ≡ some (output_above s x)
unfolding input_prepared finish output_above
input_prepared_above s x [] e b h l a = ground arith
input_prepared_above s x (y ∷ ys) e b h l a =
    ground (arith, find-Behind x (y ∷ ys) h a, from_lower_bound-Behind x (y ∷ ys) h a)

input_above :
    (s : SeqManager) (x : ℕ)
    → s.started ≡ true
    → s.base < u16_mod
    → x < u16_mod
    → is_seq_higher_than max16 x s.max_input ≡ true
    → length s.dropped < u16_mod
    → All (Behind 32767 x) s.dropped
    → (input max16 s x).1 ≡ some (output_above s x)
unfolding input output_above
input_above s x st b h hi l a =
    rw (prepare_above s x st b h hi a) (elim (Bool-cases (is_empty s.dropped)) [
      | inl e ↦ rw e (input_prepared_above s x s.dropped refl b h l a)
      | inr e ↦ rw e (input_prepared_above (record s { max_input = x }) x s.dropped refl b h l a)
    ])

-- When the n numbers that follow the highest input are dropped, the number after them gets the very
-- output that the first of them would have got: the outputs have no gap. (n is at most 32766, the
-- manager has been used, and no earlier drop is pending.)
pub input-drop_all :
    (s : SeqManager) (n : ℕ)
    → s.started ≡ true
    → s.dropped ≡ []
    → s.max_input < u16_mod
    → s.base < u16_mod
    → n ≤ 32766
    → (input max16 (drop_all s (following s.max_input n)) ((s.max_input + n + 1) % u16_mod)).1
      ≡ (input max16 s (add16 s.max_input 1)).1
unfolding is_seq_higher_than output_above
input-drop_all s n st e m b l =
    let x = s.max_input in
    let y = (x + n + 1) % u16_mod in
    let s' = record s { max_input = (x + n) % u16_mod; dropped = following x n } in
    let reached : drop_all s (following x n) ≡ s' =
      drop_all-following n 0 s m b (omega arith) (rw e tt) ∙ ground (arith, e) in
    rw reached (
      input_above s' y st b (omega arith) (ground arith) (omega (arith, length-following n x))
        (All-following n 0 x y m (omega arith) (omega arith))
      ∙ ground (
        arith,
        e,
        length-following n x,
        input_above s (add16 x 1) st b (omega arith) (ground arith) (rw e (omega arith)) (rw e tt),
      ))

-- After `Sync` with some input the outputs go on from the highest one: an input d above it gets the
-- highest output plus d.
pub input-sync :
    (s : SeqManager) (x d : ℕ)
    → x < u16_mod
    → s.max_output < u16_mod
    → (input max16 (sync max16 s x) ((x + d) % u16_mod)).1
      ≡ some ((s.max_output + d + s.initial_output) % u16_mod)
unfolding input prepare input_prepared finish sync
input-sync s x d h m = ground arith
