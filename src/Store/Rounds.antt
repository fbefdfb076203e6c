-- ===== src/Store/Rounds.antt =====
-- dcontext/src/store.rs: the `while` loop of `pop_scope` round by round, on the whole store, with a
-- bound on the rounds.
use dcontext.Base.{
  ℕ, zero, suc, ◌+◌, ◌-◌, ◌≤◌, ◌<◌, ◌≡◌, refl, ap, ◌∙◌, Bool, true, false, ◌&&◌, ◌||◌, Option, none,
  some, List, [], ◌∷◌, arith, length, if◌then◌else◌, ltb, leb, lt→ltb, ltb_of_le,
}
use native.Mathlib.Decide.{dec_lt}
use dcontext.Scope.{ScopeNode, ScopeGarbage, Values}
use dcontext.Store.{ContextStore, max_scope_depth}
use dcontext.Store.Shape.{IsLinked, IsWellFormed, level}
use dcontext.Store.Pop.{restore, gather, is_dead, pop_loop, garbage_of, pop_scope}
use dcontext.Store.Rewind.{pop_loop_stop, pop_loop_dead, pop_loop_real}

-- One round less is left, with one depth less to go.
one_less :
    {A : Type 0} (rounds m m' : ℕ) (result : Option A)
    → m' ≡ suc m
    → (if ltb rounds m then none else result) ≡ (if ltb (suc rounds) m' then none else result)
one_less rounds m m' result h = ground arith

module _ {D : Type 0} where
  -- The test of the loop.
  abbrev goes_on : ℕ → ContextStore D → Bool
  goes_on expected s = leb expected s.depth && ltb 1 s.depth

  -- The body of the loop, on the store and `all_old`; `none` is `break`.
  unfoldable pop_round :
      ContextStore D → Option (Values D) → Option (ContextStore D × Option (Values D))
  unfolding gather
  pop_round s all_old =
      if is_dead s.depth
      then some (record s { depth = s.depth - 1 }, all_old)
      else elim s.scope_chain [
        | [] ↦ none
        | n ∷ parent ↦ some (
          record (restore n s) { scope_chain = parent; depth = n.depth },
          gather all_old s.current_values,
        )
      ]

  -- The loop, cut off with `none` where it goes on after the given number of rounds.
  unfoldable pop_rounds :
      ℕ → ℕ → ContextStore D → Option (Values D) → Option (ContextStore D × Option (Values D))
  unfolding pop_round
  pop_rounds zero expected s all_old = if goes_on expected s then none else some (s, all_old)
  pop_rounds (suc rounds) expected s all_old = elim (goes_on expected s) [
    | false ↦ some (s, all_old)
    | true ↦ elim (pop_round s all_old) [
      | none ↦ some (s, all_old)
      | some (t, old) ↦ pop_rounds rounds expected t old
    ]
  ]

  pop_rounds_stop :
      (rounds e : ℕ) (s : ContextStore D) (g : Option (Values D))
      → s.depth < e
      → pop_rounds rounds e s g ≡ some (s, g)
  unfolding pop_rounds
  pop_rounds_stop zero e s g h = ground arith
  pop_rounds_stop (suc rounds) e s g h = ground arith

  pop_rounds_out :
      (e : ℕ) (s : ContextStore D) (g : Option (Values D))
      → 1 < e
      → e ≤ s.depth
      → pop_rounds 0 e s g ≡ none
  unfolding pop_rounds
  pop_rounds_out e s g lo h = ground arith

  pop_rounds_dead :
      (rounds e : ℕ) (s : ContextStore D) (g : Option (Values D))
      → 1 < e
      → e ≤ s.depth
      → max_scope_depth + 1 < s.depth
      → pop_rounds (suc rounds) e s g ≡ pop_rounds rounds e (record s { depth = s.depth - 1 }) g
  unfolding pop_rounds pop_round
  pop_rounds_dead rounds e s g lo h dead = ground arith

  pop_rounds_real :
      (rounds e : ℕ) (n : ScopeNode D) (p : List (ScopeNode D)) (s : ContextStore D)
      (g : Option (Values D))
      → 1 < e
      → e ≤ s.depth
      → s.depth ≤ max_scope_depth + 1
      → pop_rounds (suc rounds) e (record s { scope_chain = n ∷ p }) g
        ≡ pop_rounds rounds e
            (record (restore n s) { scope_chain = p; depth = n.depth })
            (gather g s.current_values)
  unfolding pop_rounds pop_round
  pop_rounds_real rounds e n p s g lo h real = ground arith

  -- The loop and `rounds` of its rounds, from a depth and a chain.
  abbrev Agree : ℕ → ℕ → List (ScopeNode D) → ℕ → ContextStore D → Option (Values D) → Type 0
  Agree rounds e chain d s g =
      pop_rounds rounds e (record s { scope_chain = chain; depth = d }) g
      ≡ (if ltb rounds (d + 1 - e) then none else some (pop_loop e chain d s g))

  Agree-stop :
      (rounds e : ℕ) (chain : List (ScopeNode D)) (d : ℕ) (s : ContextStore D)
      (g : Option (Values D))
      → d < e
      → Agree rounds e chain d s g
  Agree-stop rounds e chain d s g h =
      pop_rounds_stop rounds e (record s { scope_chain = chain; depth = d }) g h
      ∙ rw (ltb_of_le rounds (d + 1 - e) (omega arith)) (rw (pop_loop_stop e chain d s g h) refl)

  Agree-dead :
      (rounds e : ℕ) (chain : List (ScopeNode D)) (d : ℕ) (s : ContextStore D)
      (g : Option (Values D))
      → 1 < e
      → e ≤ suc d
      → max_scope_depth + 1 < suc d
      → Agree rounds e chain d s g
      → Agree (suc rounds) e chain (suc d) s g
  Agree-dead rounds e chain d s g lo h dead below =
      pop_rounds_dead rounds e (record s { scope_chain = chain; depth = suc d }) g lo h dead
      ∙ ap (λ b. pop_rounds rounds e (record s { scope_chain = chain; depth = b }) g)
          (let q : suc d - 1 ≡ d = omega arith in q)
      ∙ below
      ∙ one_less rounds (d + 1 - e) (suc d + 1 - e) _ (omega arith)
      ∙ rw (pop_loop_dead e chain d s g lo h dead) refl

  Agree-real :
      (rounds e : ℕ) (n : ScopeNode D) (p : List (ScopeNode D)) (d : ℕ) (s : ContextStore D)
      (g : Option (Values D))
      → 1 < e
      → e ≤ suc d
      → suc d ≤ max_scope_depth + 1
      → n.depth ≡ d
      → Agree rounds e p n.depth (restore n s) (gather g s.current_values)
      → Agree (suc rounds) e (n ∷ p) (suc d) s g
  Agree-real rounds e n p d s g lo h real same below =
      pop_rounds_real rounds e n p (record s { depth = suc d }) g lo h real
      ∙ below
      ∙ one_less rounds (n.depth + 1 - e) (suc d + 1 - e) _ (omega arith)
      ∙ rw (pop_loop_real e n p d s g lo h real) refl

  pop_rounds-pop_loop :
      (rounds e : ℕ) (chain : List (ScopeNode D)) (d : ℕ) (s : ContextStore D)
      (g : Option (Values D))
      → IsLinked chain
      → level d ≡ length chain + 1
      → 1 < e
      → Agree rounds e chain d s g
  pop_rounds-pop_loop rounds e chain zero s g l lev lo =
      Agree-stop rounds e chain 0 s g (omega arith)
  pop_rounds-pop_loop zero e chain (suc d) s g l lev lo = elim (dec_lt (suc d) e) [
    | yes above ↦ Agree-stop 0 e chain (suc d) s g above
    | no h ↦
        pop_rounds_out e (record s { scope_chain = chain; depth = suc d }) g lo (omega arith)
        ∙ rw (lt→ltb 0 (suc d + 1 - e) (omega arith)) refl
  ]
  pop_rounds-pop_loop (suc rounds) e [] (suc d) s g l lev lo = elim (dec_lt (suc d) e) [
    | yes above ↦ Agree-stop (suc rounds) e [] (suc d) s g above
    | no h ↦ absurd (omega (arith, lev))
  ]
  pop_rounds-pop_loop (suc rounds) e (n ∷ p) (suc d) s g l lev lo = elim (dec_lt (suc d) e) [
    | yes above ↦ Agree-stop (suc rounds) e (n ∷ p) (suc d) s g above
    | no h ↦ elim (dec_lt (max_scope_depth + 1) (suc d)) [
      | yes dead ↦
          Agree-dead rounds e (n ∷ p) d s g lo (omega arith) dead
            (pop_rounds-pop_loop rounds e (n ∷ p) d s g l (omega (arith, lev)) lo)
      | no real ↦
          Agree-real rounds e n p d s g lo (omega arith) (omega arith) (omega (arith, l.0, lev)) (
            pop_rounds-pop_loop rounds e p n.depth (restore n s) (gather g s.current_values) l.3
              (omega (arith, l.0, lev)) lo)
    ]
  ]

  -- `pop_scope` with its loop cut off after the given number of rounds.
  unfoldable pub pop_scope_within :
      ℕ → ℕ → ContextStore D → Option (ContextStore D × Option (ScopeGarbage D))
  unfolding pop_rounds garbage_of
  pop_scope_within rounds expected s =
      if ltb s.depth expected || leb expected 1
      then some (s, none)
      else elim (pop_rounds rounds expected s none) [
        | none ↦ none
        | some (t, old) ↦ some (garbage_of (t, old))
      ]

  -- On a well-formed store, with an expected depth above 1, the loop of `pop_scope` takes exactly
  -- one round for each level from the depth of the store down to the expected depth, and with as
  -- many rounds or more it ends in the result of `pop_scope`; with fewer it has not ended.
  pub pop_scope_within_lem :
      (rounds e : ℕ) (s : ContextStore D)
      → IsWellFormed s
      → 1 < e
      → pop_scope_within rounds e s
        ≡ (if ltb rounds (s.depth + 1 - e) then none else some (pop_scope e s))
  unfolding pop_scope_within pop_scope
  pop_scope_within_lem rounds e s w lo =
      let agree = pop_rounds-pop_loop rounds e s.scope_chain s.depth s none w.linked w.levels lo in
      elim (dec_lt s.depth e) [
        | yes above ↦ ground arith
        | no h ↦ elim (dec_lt rounds (s.depth + 1 - e)) [
          | yes few ↦ ground (arith, agree)
          | no enough ↦ ground (arith, agree)
        ]
      ]
