-- ===== src/Life/Workers/Finish.antt =====
-- A round of the workers of lab8/src/simulation.c can be finished from wherever it stands.
use cs_os.Prelude.{
  ℕ, zero, suc, ◌≤◌, ◌<◌, ◌≡◌, ◌≢◌, refl, ◌∙◌, inl, inr, Bool, List, [], ◌∷◌, arith, ◌==◌, ltb,
  if◌then◌else◌, Bool-cases, ==_iff, ltb→lt,
}
use native.Mathlib.Decide.{ℕ_discrete}
use cs_os.Life.Grid.{update_cell}
use cs_os.Life.Workers.{Round, round_start, assign, Steps, none_yet, more}

module _ (src : List Bool) where
  then_steps : {s t u : Round} → Steps src t u → Steps src s t → Steps src s u
  then_steps none_yet r = r
  then_steps (more q st) r = more (then_steps q r) st

  -- Thread `i` goes through the rest of its cells, and the others stand still.
  record Through (s : Round) (i : ℕ) : Type 0 where
    end : Round
    run : Steps src s end
    through : end.remaining i ≡ []
    others : (j : ℕ) → j ≢ i → end.remaining j ≡ s.remaining j

  after : Round → ℕ → ℕ → ℕ → List (ℕ × ℕ) → Round
  after s i y x rest = record {
    background = update_cell src y x s.background;
    remaining = λ j. if j == i then rest else s.remaining j;
  }

  after-own :
      (s : Round) (i y x : ℕ) (rest : List (ℕ × ℕ)) → (after s i y x rest).remaining i ≡ rest
  unfolding after
  after-own s i y x rest = rw ((==_iff i i).1 refl) refl

  after-other :
      (s : Round) (i y x : ℕ) (rest : List (ℕ × ℕ)) (j : ℕ)
      → j ≢ i
      → (after s i y x rest).remaining j ≡ s.remaining j
  unfolding after
  after-other s i y x rest j ne = ground arith

  first_then :
      (s : Round) (i y x : ℕ) (rest : List (ℕ × ℕ))
      → s.remaining i ≡ (y, x) ∷ rest
      → Through (after s i y x rest) i
      → Through s i
  unfolding after
  first_then s i y x rest e t = record {
    end = t.end;
    run = then_steps t.run (more none_yet (assign i y x rest e refl));
    through = t.through;
    others = λ j ne. t.others j ne ∙ after-other s i y x rest j ne;
  }

  thread-Through : (cells : List (ℕ × ℕ)) (s : Round) (i : ℕ) → s.remaining i ≡ cells → Through s i
  thread-Through [] s i e = record { end = s; run = none_yet; through = e; others = λ j ne. refl }
  thread-Through ((y, x) ∷ cells) s i e =
      first_then s i y x cells e
        (thread-Through cells (after s i y x cells) i (after-own s i y x cells))

  -- The threads below `k` are through.
  record Below (s : Round) (k : ℕ) : Type 0 where
    end : Round
    run : Steps src s end
    through : (j : ℕ) → j < k → end.remaining j ≡ []
    others : (j : ℕ) → k ≤ j → end.remaining j ≡ s.remaining j

  threads-Below : (k : ℕ) (s : Round) → Below s k
  threads-Below zero s = record {
    end = s;
    run = none_yet;
    through = λ j h. absurd (omega arith);
    others = λ j h. refl;
  }
  threads-Below (suc k) s = next (threads-Below k s)
    where
      next : Below s k → Below s (suc k)
      next b = add (thread-Through (b.end.remaining k) b.end k refl)
        where
          add : Through b.end k → Below s (suc k)
          add t = record {
            end = t.end;
            run = then_steps t.run b.run;
            through = λ j h. elim (ℕ_discrete j k) [
              | yes e ↦ rw e (t.through)
              | no ne ↦ t.others j ne ∙ b.through j (omega arith)
            ];
            others = λ j h. t.others j (omega arith) ∙ b.others j (omega arith);
          }

  -- From any state of a round in which the threads above some number have nothing to do, for
  -- instance its start, some interleaving brings all threads to the end of their rows.
  pub round-finishes :
      (n : ℕ) (s : Round)
      → ((i : ℕ) → n ≤ i → s.remaining i ≡ [])
      → (t : Round) × Steps src s t × ((i : ℕ) → t.remaining i ≡ [])
  round-finishes n s idle = finish (threads-Below n s)
    where
      finish : Below s n → (t : Round) × Steps src s t × ((i : ℕ) → t.remaining i ≡ [])
      finish b = (
        b.end,
        b.run,
        λ i. elim (Bool-cases (ltb i n)) [
          | inl lt ↦ b.through i (ltb→lt i n lt)
          | inr ge ↦ b.others i (ground arith) ∙ idle i (ground arith)
        ],
      )

  pub round_start-idle :
      (n : ℕ) (background : List Bool) (i : ℕ) → n ≤ i → (round_start n background).remaining i ≡ []
  unfolding round_start
  round_start-idle n background i h = ground arith
