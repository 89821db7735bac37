-- ===== src/SeqManager/Defs.antt =====
-- The state of `SeqManager<T, N>` and its operations, over `MaxValue`. The integers of the source
-- are cut to N bits by `& MaxValue`, which is the remainder by `max + 1`.
use bifrost_sdk.Base.{
  ℕ, ◌+◌, ◌-◌, ◌%◌, Bool, true, false, not, ◌&&◌, if◌then◌else◌, Option, none, some, List, [], ◌∷◌,
  length,
}
use bifrost_sdk.Seq.{is_seq_lower_than, is_seq_higher_than}
use bifrost_sdk.OrderedSet.{emplace, find, from_lower_bound}

pub record SeqManager : Type 0 where
  pub started : Bool
  pub initial_output : ℕ
  pub base : ℕ
  pub max_output : ℕ
  pub max_input : ℕ
  pub dropped : List ℕ

-- `explicit SeqManager(T initialOutput)`
abbrev pub create : ℕ → SeqManager
create initial_output = record {
  started = false;
  initial_output = initial_output;
  base = 0;
  max_output = 0;
  max_input = 0;
  dropped = [];
}

abbrev pub is_empty : List ℕ → Bool
is_empty [] = true
is_empty (_ ∷ _) = false

abbrev pub seq_key : ℕ → ℕ
seq_key seq = seq

module _ (max : ℕ) where
  -- `(a + b) & MaxValue` and `(a - b) & MaxValue`
  abbrev pub add_masked : ℕ → ℕ → ℕ
  add_masked a b = (a + b) % (max + 1)

  abbrev pub sub_masked : ℕ → ℕ → ℕ
  sub_masked a b = (a + (max + 1) - b % (max + 1)) % (max + 1)

  unfoldable pub sync : SeqManager → ℕ → SeqManager
  sync s input = record s { base = sub_masked s.max_output input; max_input = input; dropped = [] }

  -- The loop of `ClearDropped`, from `begin()` on.
  unfoldable pub clear_loop : ℕ → List ℕ → List ℕ
  clear_loop max_input [] = []
  clear_loop max_input (value ∷ rest) =
      if is_seq_higher_than max value max_input then clear_loop max_input rest else value ∷ rest

  unfoldable pub clear_dropped : SeqManager → SeqManager
  clear_dropped s = if is_empty s.dropped then s else record s {
    dropped = clear_loop s.max_input s.dropped;
    base = sub_masked s.base (length s.dropped - length (clear_loop s.max_input s.dropped));
  }

  unfoldable pub drop : SeqManager → ℕ → SeqManager
  drop s input =
      if is_seq_higher_than max input s.max_input
      then clear_dropped (record s {
        max_input = input;
        dropped = emplace seq_key (is_seq_lower_than max) input s.dropped;
      })
      else s

  -- What `Input` does first: with dropped inputs present, clean up.
  unfoldable pub prepare : SeqManager → ℕ → SeqManager
  prepare s input =
      if is_empty s.dropped
      then s
      else clear_dropped (record s {
        max_input =
            if s.started && is_seq_higher_than max input s.max_input then input else s.max_input;
      })

  -- The part of `Input` at the label `done`, with the new state and the output.
  unfoldable pub finish : SeqManager → ℕ → ℕ → SeqManager × ℕ
  finish s base input =
      let output = add_masked input base in
      (
        if not s.started
            then record s { started = true; max_input = input; max_output = output }
            else record s {
              max_input = if is_seq_higher_than max input s.max_input then input else s.max_input;
              max_output =
                  if is_seq_higher_than max output s.max_output then output else s.max_output;
            },
        add_masked output s.initial_output,
      )

  -- `Input`, after the cleanup: `none` is the result false, with no output.
  unfoldable pub input_prepared : SeqManager → ℕ → SeqManager × Option ℕ
  input_prepared s input =
      if is_empty s.dropped
      then (let (s', output) = finish s s.base input in (s', some output))
      else elim (find seq_key (is_seq_lower_than max) input s.dropped) [
        | some _ ↦ (s, none)
        | none ↦
            let above = from_lower_bound seq_key (is_seq_lower_than max) input s.dropped in
            let base = sub_masked s.base (length s.dropped - length above) in
            let (s', output) = finish s base input in (s', some output)
      ]

  unfoldable pub input : SeqManager → ℕ → SeqManager × Option ℕ
  input s x = input_prepared (prepare s x) x
