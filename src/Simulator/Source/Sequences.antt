-- ===== src/Simulator/Source/Sequences.antt =====
-- input_simulator/session.py: the headers of one session have increasing sequences.
use hil_simulation.Common.{ℕ, ◌+◌, ◌≤◌, ◌<◌, ◌≡◌, refl, ap, ◌∙◌, subst, not, Option, List, arith}
use hil_simulation.Common.Result.{ok, state, ok-injective}
use hil_simulation.Common.Exec.{bind-eq-ok, check_fixed, check}
use hil_simulation.Runtime.Contract.{Header}
use hil_simulation.Simulator.Source.State.{Profile, Source, clock, operation}
use hil_simulation.Simulator.Source.Attempts.{preview_header, allocate, allocate_header}
use hil_simulation.Simulator.Source.Operations.{Op, run}
use hil_simulation.Simulator.Source.Inner.{Inner, preview_header-Keeps}
use hil_simulation.Simulator.Source.Keeps.{Free, Free-Outer, run-Keeps}
use hil_simulation.Simulator.Source.Learns.{
  Learns, remember_feedback-Keeps, remember_control_feedback-P,
}

-- The next sequence is `n`, and it is at least `n`.
abbrev NextIs : ℕ → Source → Type 0
NextIs n s = s.next_sequence ≡ n

abbrev NextFrom : ℕ → Source → Type 0
NextFrom n s = n ≤ s.next_sequence

module _ (u : Profile) (n : ℕ) where
  next_learns : Learns (NextIs n)
  next_learns = record { observes = λ o floor q t b e s h. h; leads = λ l m w s h. h }

  from_learns : Learns (NextFrom n)
  from_learns = record { observes = λ o floor q t b e s h. h; leads = λ l m w s h. h }

  next_inner : Inner u (NextIs n)
  next_inner = record {
    timed = λ now s h. h;
    claims = λ m s h. ground (arith, h);
    beat = λ last s h. h;
    told = remember_feedback-Keeps u (NextIs n) next_learns;
    controlled = remember_control_feedback-P u (NextIs n) next_learns;
    heard = λ m s h. h;
  }

  from_free : Free u (NextFrom n)
  from_free = record {
    inner = record {
      timed = λ now s h. h;
      claims = λ m s h. ground (arith, h);
      beat = λ last s h. h;
      told = remember_feedback-Keeps u (NextFrom n) from_learns;
      controlled = remember_control_feedback-P u (NextFrom n) from_learns;
      heard = λ m s h. h;
    };
    commits = λ header mid s h. omega arith;
    recorded = λ m reply started completed s h. h;
    extended = λ deadline s h. h;
    stored = λ d m s h. h;
    drained = λ s h. h;
    can_claimed = λ a b s h. h;
  }

module _ (u : Profile) (now mid at : ℕ) (txn : Option ℕ) where
  preview_header-sequence :
      (s : Source) {header : Header}
      → (preview_header u now mid at txn s).0 ≡ ok header
      → header.sequence ≡ s.next_sequence
  unfolding preview_header clock
  preview_header-sequence s {header} done = ground (arith, done)

  allocate-sequence :
      (s : Source) {header : Header}
      → (allocate u now mid at txn s).0 ≡ ok header
      → (header.sequence ≡ s.next_sequence)
        × ((allocate u now mid at txn s).1.next_sequence ≡ s.next_sequence + 1)
  unfolding allocate
  allocate-sequence s {header} done =
      let (h, found, rest, after) = bind-eq-ok (preview_header u now mid at txn) _ s done in
      let same : h ≡ header = ok-injective rest in
      let kept =
        preview_header-Keeps u (NextIs s.next_sequence) (next_inner u s.next_sequence) now mid at
          txn s refl in
      (
        subst (λ x. x.sequence ≡ s.next_sequence) same (preview_header-sequence s found),
        ap (λ t. t.next_sequence) after ∙ ap (λ n. n + 1) kept,
      )

  allocate_header-sequence :
      (s : Source) {header : Header}
      → (allocate_header u now mid at txn s).0 ≡ ok header
      → (header.sequence ≡ s.next_sequence)
        × ((allocate_header u now mid at txn s).1.next_sequence ≡ s.next_sequence + 1)
  unfolding allocate_header operation
  allocate_header-sequence s {header} done =
      let (a, valid, rest, after) =
        bind-eq-ok (λ s. check (not s.closed) state s) (λ _. allocate u now mid at txn) s done in
      let same = check_fixed (not s.closed) state s in
      let (here, next) =
        allocate-sequence s (subst (λ t. (allocate u now mid at txn t).0 ≡ ok header) same rest) in
      (
        here,
        ap (λ t. t.next_sequence) after
            ∙ ap (λ t. (allocate u now mid at txn t).1.next_sequence) same
            ∙ next,
      )

-- Within a session, a header that is allocated later has a greater sequence, whatever operations
-- stand between.
pub allocate_header-run-allocate_header :
    (u : Profile) (ops : List Op) (now later mid other_mid at other_at : ℕ)
    (txn other_txn : Option ℕ) (s : Source) (first second : Header)
    → (allocate_header u now mid at txn s).0 ≡ ok first
    → (allocate_header u later other_mid other_at other_txn
        (run u ops (allocate_header u now mid at txn s).1)).0
      ≡ ok second
    → first.sequence < second.sequence
allocate_header-run-allocate_header u ops now later mid other_mid at other_at txn other_txn s first
      second one two =
    let (here, next) = allocate_header-sequence u now mid at txn s one in
    let from =
      run-Keeps u (NextFrom (s.next_sequence + 1))
        (Free-Outer u (NextFrom (s.next_sequence + 1)) (from_free u (s.next_sequence + 1))) ops
        (allocate_header u now mid at txn s).1 (omega (arith, next)) in
    let (there, last) =
      allocate_header-sequence u later other_mid other_at other_txn
        (run u ops (allocate_header u now mid at txn s).1) two in
    omega (arith, here, there, from)
