-- ===== src/Store/Spec.antt =====
-- What dcontext/src/store.rs promises, without its representation: a stack of scopes, each with the
-- names that lead to it and a value at every key, and a number of scopes that are too deep to have
-- either.
use dcontext.Base.{
  arith, ◌≤◌, ◌<◌, ◌⊎◌, ◌≡◌, refl, ltb_of_le, lt→ltb, ℕ, ◌+◌, ◌-◌, String, ◌++◌, Option, some, List,
  [], ◌∷◌, if◌then◌else◌, ltb, leb, nat_eqb, length, to_list, string_eq, ◌==◌, ◌||◌,
}
use dcontext.Value.{Value}
use dcontext.Store.{max_scope_depth}

-- What is to be seen in one scope.
pub record Level (D : Type 0) : Type 0 where
  pub path : List String
  pub value_at : String → Option (Value D)

pub record Stack (D : Type 0) : Type 0 where
  pub top : Level D
  -- The outer scopes, nearest first.
  pub outer : List (Level D)
  pub dead : ℕ

pub data Op (D : Type 0) : Type 0 where
  push : Option String → Op D
  write : String → Value D → Op D
  pop : ℕ → Op D

module _ {D : Type 0} where
  abbrev pub height : Stack D → ℕ
  height st = length st.outer + 1 + st.dead

  abbrev pub open_level : Option String → Stack D → Stack D
  open_level name st =
      if ltb max_scope_depth (height st) then record st { dead = st.dead + 1 } else record {
        top = record { path = st.top.path ++ to_list name; value_at = st.top.value_at };
        outer = st.top ∷ st.outer;
        dead = st.dead;
      }

  abbrev pub write_top : String → Value D → Stack D → Stack D
  write_top key value st = record st {
    top = record st.top { value_at = λ k. if key == k then some value else st.top.value_at k };
  }

  -- The levels from height `t` down, as they were.
  unfoldable pub cut : ℕ → List (Level D) → Stack D → Stack D
  cut t [] st = st
  cut t (l ∷ outer) st =
      let further = cut t outer st in
      if nat_eqb (length outer + 1) t then record { top = l; outer = outer; dead = 0 } else further

  unfoldable pub close_level : ℕ → Stack D → Stack D
  unfolding cut
  close_level expected st =
      if leb expected 1 || ltb (height st) expected
      then st
      else if ltb (length st.outer + 1) expected
      then record st { dead = expected - 1 - (length st.outer + 1) }
      else cut (expected - 1) st.outer st

  unfoldable pub perform : Op D → Stack D → Stack D
  unfolding close_level
  perform (push name) st = open_level name st
  perform (write key value) st = write_top key value st
  perform (pop expected) st = close_level expected st

  unfoldable pub performs : List (Op D) → Stack D → Stack D
  unfolding perform
  performs [] st = st
  performs (op ∷ ops) st = performs ops (perform op st)

  pub open_level_real :
      (name : Option String) (st : Stack D)
      → height st ≤ max_scope_depth
      → open_level name st ≡ record {
        top = record { path = st.top.path ++ to_list name; value_at = st.top.value_at };
        outer = st.top ∷ st.outer;
        dead = st.dead;
      }
  open_level_real name st h = rw (ltb_of_le max_scope_depth (height st) h) refl

  pub open_level_dead :
      (name : Option String) (st : Stack D)
      → max_scope_depth < height st
      → open_level name st ≡ record st { dead = st.dead + 1 }
  open_level_dead name st h = rw (lt→ltb max_scope_depth (height st) h) refl

  pub cut_here :
      (t : ℕ) (l : Level D) (outer : List (Level D)) (st : Stack D)
      → length outer + 1 ≡ t
      → cut t (l ∷ outer) st ≡ record { top = l; outer = outer; dead = 0 }
  unfolding cut
  cut_here t l outer st h = ground arith

  pub cut_further :
      (t : ℕ) (l : Level D) (outer : List (Level D)) (st : Stack D)
      → t < length outer + 1
      → cut t (l ∷ outer) st ≡ cut t outer st
  unfolding cut
  cut_further t l outer st h = ground arith

  pub close_level_outside :
      (e : ℕ) (st : Stack D) → (e ≤ 1) ⊎ (height st < e) → close_level e st ≡ st
  unfolding close_level
  close_level_outside e st h = ground arith

  pub close_level_dead :
      (e : ℕ) (st : Stack D)
      → 1 < e
      → e ≤ height st
      → length st.outer + 1 < e
      → close_level e st ≡ record st { dead = e - 1 - (length st.outer + 1) }
  unfolding close_level
  close_level_dead e st lo h dead = ground arith

  pub close_level_real :
      (e : ℕ) (st : Stack D)
      → 1 < e
      → e ≤ length st.outer + 1
      → close_level e st ≡ cut (e - 1) st.outer st
  unfolding close_level
  close_level_real e st lo h = ground arith
