-- ===== src/Parse/Precedence/Table/Closure.antt =====
-- `MakeTransitivelyClosed` adds no relation that does not follow from those of its input.
use mathlib.Core.Option.{some-injective}
use mathlib.Core.Path.{subst}
use cocktail_lang.Prelude.{
  ℕ, zero, suc, ◌+◌, ◌≡◌, true, false, ◌&&◌, not, some, ◌⊎◌, arith, Bool-cases, inl, inr, get_or,
  get_or-set_cases, sym, ◌∙◌, [], set,
}
use cocktail_lang.Parse.Precedence.Level.{
  OperatorPriority, left_first, ambiguous, num_precedence_levels,
}
use cocktail_lang.Parse.Precedence.Table.{
  Table, entry, set_entry, Pass, is_left_first, for_levels, close_at, close_through, close_pass,
  make_transitively_closed,
}

-- A chain of entries of the table leads from one level down to another.
pub data Higher (t : Table) : ℕ → ℕ → Type 0 where
  listed : {a b : ℕ} → entry t a b ≡ left_first → Higher t a b
  chain : {a b c : ℕ} → Higher t a b → Higher t b c → Higher t a c

-- Every entry of `u` follows from those of `t`.
pub record FollowsFrom (t u : Table) : Type 0 where
  pub follows : (a b : ℕ) → entry u a b ≡ left_first → Higher t a b

for_levels_inv {ℓ κ} :
    {S : Type ℓ} (P : S → Type κ) (body : ℕ → S → S)
    → ((x : ℕ) (s : S) → P s → P (body x s))
    → (k x : ℕ) (s : S) → P s
    → P (for_levels k x body s)
unfolding for_levels
for_levels_inv P body keep zero x s h = h
for_levels_inv P body keep (suc k) x s h =
    for_levels_inv P body keep k (x + 1) (body x s) (keep x s h)

entry-set_entry :
    (t : Table) (a c i j : ℕ)
    → entry (set_entry t a c left_first) i j ≡ left_first
    → ((a ≡ i) × (c ≡ j)) ⊎ (entry t i j ≡ left_first)
unfolding entry set_entry
entry-set_entry t a c i j h = elim (get_or-set_cases t a i (set (get_or t a []) c left_first) []) [
  | inl (e, row) ↦ elim (get_or-set_cases (get_or t a []) c j left_first ambiguous) [
    | inl (f, v) ↦ inl (e, f)
    | inr old ↦ inr (rw (← e) (sym old ∙ rw row at h))
  ]
  | inr row ↦ inr (rw row at h)
]

left_first_of_test : (p : OperatorPriority) → is_left_first p ≡ true → p ≡ left_first
left_first_of_test p h = ground arith

module _ (t : Table) where
  close_at-FollowsFrom :
      (a b c : ℕ) (s : Pass)
      → Higher t a b
      → FollowsFrom t s.table
      → FollowsFrom t (close_at a b c s).table
  unfolding close_at
  close_at-FollowsFrom a b c s ab f =
      elim (Bool-cases
        (is_left_first (entry s.table b c) && not (is_left_first (entry s.table a c)))) [
          | inl test ↦ rw test (record {
            follows = λ i j h. elim (entry-set_entry s.table a c i j h) [
              | inl (ai, cj) ↦
                  rw (← ai, ← cj)
                    (chain ab
                      (f.follows b c (left_first_of_test (entry s.table b c) (ground arith))))
              | inr old ↦ f.follows i j old
            ];
          })
          | inr test ↦ rw test f
        ]

  close_through-FollowsFrom :
      (a b : ℕ) (s : Pass) → FollowsFrom t s.table → FollowsFrom t (close_through a b s).table
  unfolding close_through
  close_through-FollowsFrom a b s f = elim (Bool-cases (is_left_first (entry s.table a b))) [
    | inl test ↦ rw test (
        for_levels_inv (λ (u : Pass). FollowsFrom t u.table) (close_at a b)
          (λ c u.
            close_at-FollowsFrom a b c u
              (f.follows a b (left_first_of_test (entry s.table a b) test)))
          num_precedence_levels 0 s f)
    | inr test ↦ rw test f
  ]

  close_pass-FollowsFrom : (u : Table) → FollowsFrom t u → FollowsFrom t (close_pass u).table
  unfolding close_pass
  close_pass-FollowsFrom u f =
      for_levels_inv (λ (s : Pass). FollowsFrom t s.table)
        (λ a s. for_levels num_precedence_levels 0 (close_through a) s)
        (λ a s.
          for_levels_inv (λ (s : Pass). FollowsFrom t s.table) (close_through a)
            (close_through-FollowsFrom a) num_precedence_levels 0 s)
        num_precedence_levels 0 (record { table = u; changed = false }) f

  closed-FollowsFrom :
      (fuel : ℕ) (u : Table) {v : Table}
      → FollowsFrom t u
      → make_transitively_closed fuel u ≡ some v
      → FollowsFrom t v
  unfolding make_transitively_closed
  closed-FollowsFrom zero u f e = cc
  closed-FollowsFrom (suc fuel) u {v} f e =
      let f' = close_pass-FollowsFrom u f in
      elim (Bool-cases (close_pass u).changed) [
        | inl again ↦
            closed-FollowsFrom fuel (close_pass u).table f'
              (rw (again, make_transitively_closed) at e)
        | inr done ↦
            subst (FollowsFrom t) (some-injective _ _ (rw (done, make_transitively_closed) at e)) f'
      ]

-- Each relation of the closed table follows from those of the table that was closed.
pub make_transitively_closed_sound :
    (fuel : ℕ) (t : Table) {v : Table} (a b : ℕ)
    → make_transitively_closed fuel t ≡ some v
    → entry v a b ≡ left_first
    → Higher t a b
make_transitively_closed_sound fuel t a b e =
    (closed-FollowsFrom t fuel t (record { follows = λ i j. listed }) e).follows a b
