-- ===== src/Gateway/Registry/Sessions.antt =====
-- icd_gateway/session.py: the properties of the sessions that the five changes of Keeps.antt keep.
use hil_simulation.Common.{
  ℕ, ◌+◌, ◌≤◌, ◌<◌, ◌≡◌, Bool, some, none, [], length, ℕ_discrete, arith, refl,
}
use hil_simulation.Common.Dict.{Dict, lookup, insert, remove, keep}
use hil_simulation.Common.Dict.Laws.{
  Distinct, lookup-insert, lookup-remove, insert-Distinct, remove-Distinct, length-insert_new,
  length-insert_old, length-remove-le, lookup-keep, keep-Distinct, length-keep-le,
}
use hil_simulation.Gateway.Registry.State.{Session, Setup}
use hil_simulation.Gateway.Registry.Keeps.{Closed}

-- Every session has one entry and an id that the counter has passed, and there are no more sessions
-- than the deployment allows. `n` is the counter and `d` the sessions.
pub record IsLive (u : Setup) (n : ℕ) (d : Dict ℕ Session) : Type 0 where
  pub distinct : Distinct ℕ_discrete d
  pub unallocated : (sid : ℕ) → n ≤ sid → lookup ℕ_discrete sid d ≡ none
  pub few : length d ≤ u.max_sessions

-- The id was allocated, and its session, if it still is there, has passed the sequence.
pub record IsSpent (u : Setup) (sid sequence n : ℕ) (d : Dict ℕ Session) : Type 0 where
  pub live : IsLive u n d
  pub allocated : sid < n
  pub passed : (x : Session) → lookup ℕ_discrete sid d ≡ some x → sequence ≤ x.last_rx

module _ (u : Setup) where
  keep-IsLive :
      (test : ℕ → Session → Bool) (n : ℕ) (d : Dict ℕ Session)
      → IsLive u n d
      → IsLive u n (keep test d)
  keep-IsLive test n d v = record {
    distinct = keep-Distinct ℕ_discrete test d v.distinct;
    unallocated =
        λ sid h. ground (arith, lookup-keep ℕ_discrete test sid d v.distinct, v.unallocated sid h);
    few = omega (arith, length-keep-le ℕ_discrete test d, v.few);
  }

  remove-IsLive :
      (sid n : ℕ) (d : Dict ℕ Session) → IsLive u n d → IsLive u n (remove ℕ_discrete sid d)
  remove-IsLive sid n d v = record {
    distinct = remove-Distinct ℕ_discrete sid d v.distinct;
    unallocated = λ j h. ground (arith, lookup-remove ℕ_discrete sid j d, v.unallocated j h);
    few = omega (arith, length-remove-le ℕ_discrete sid d, v.few);
  }

  empty-IsLive : (n : ℕ) (d : Dict ℕ Session) → IsLive u n d → IsLive u n []
  unfolding lookup
  empty-IsLive n d v = record { distinct = tt; unallocated = λ j h. refl; few = omega arith }

  allocate-IsLive :
      (x : Session) (n : ℕ) (d : Dict ℕ Session)
      → length d < u.max_sessions
      → IsLive u n d
      → IsLive u (n + 1) (insert ℕ_discrete n x d)
  allocate-IsLive x n d room v = record {
    distinct = insert-Distinct ℕ_discrete n x d v.distinct;
    unallocated =
        λ j h. ground (arith, lookup-insert ℕ_discrete n j x d, v.unallocated j (omega arith));
    few = omega (arith, length-insert_new ℕ_discrete n x d (v.unallocated n (omega arith)));
  }

  renew-IsLive :
      (sid : ℕ) (x x' : Session) (n : ℕ) (d : Dict ℕ Session)
      → lookup ℕ_discrete sid d ≡ some x
      → IsLive u n d
      → IsLive u n (insert ℕ_discrete sid x' d)
  renew-IsLive sid x x' n d found v = record {
    distinct = insert-Distinct ℕ_discrete sid x' d v.distinct;
    unallocated = λ j h. ground (arith, lookup-insert ℕ_discrete sid j x' d, v.unallocated j h);
    few = omega (arith, length-insert_old ℕ_discrete sid x' x d found, v.few);
  }

  pub IsLive-Closed : Closed u (IsLive u)
  IsLive-Closed = record {
    kept = keep-IsLive;
    removed = remove-IsLive;
    emptied = empty-IsLive;
    allocated = allocate-IsLive;
    renewed = λ sid x x' n d found above v. renew-IsLive sid x x' n d found v;
  }

  module _ (sid sequence : ℕ) where
    abbrev Spent : ℕ → Dict ℕ Session → Type 0
    Spent = IsSpent u sid sequence

    keep-IsSpent :
        (test : ℕ → Session → Bool) (n : ℕ) (d : Dict ℕ Session) → Spent n d → Spent n (keep test d)
    keep-IsSpent test n d v = record {
      live = keep-IsLive test n d v.live;
      allocated = v.allocated;
      passed = λ x h. ground (arith, lookup-keep ℕ_discrete test sid d v.live.distinct, v.passed x);
    }

    remove-IsSpent : (j n : ℕ) (d : Dict ℕ Session) → Spent n d → Spent n (remove ℕ_discrete j d)
    remove-IsSpent j n d v = record {
      live = remove-IsLive j n d v.live;
      allocated = v.allocated;
      passed = λ x h. ground (arith, lookup-remove ℕ_discrete j sid d, v.passed x);
    }

    allocate-IsSpent :
        (x : Session) (n : ℕ) (d : Dict ℕ Session)
        → length d < u.max_sessions
        → Spent n d
        → Spent (n + 1) (insert ℕ_discrete n x d)
    allocate-IsSpent x n d room v = record {
      live = allocate-IsLive x n d room v.live;
      allocated = omega (arith, v.allocated);
      passed = λ y h. ground (arith, lookup-insert ℕ_discrete n sid x d, v.allocated, v.passed y);
    }

    renew-IsSpent :
        (j : ℕ) (x x' : Session) (n : ℕ) (d : Dict ℕ Session)
        → lookup ℕ_discrete j d ≡ some x
        → x.last_rx ≤ x'.last_rx
        → Spent n d
        → Spent n (insert ℕ_discrete j x' d)
    renew-IsSpent j x x' n d found above v = record {
      live = renew-IsLive j x x' n d found v.live;
      allocated = v.allocated;
      passed = λ y h. ground (arith, lookup-insert ℕ_discrete j sid x' d, v.passed y, v.passed x);
    }

    pub IsSpent-Closed : Closed u Spent
    unfolding lookup
    IsSpent-Closed = record {
      kept = keep-IsSpent;
      removed = remove-IsSpent;
      emptied = λ n d v. record {
        live = empty-IsLive n d v.live;
        allocated = v.allocated;
        passed = λ x h. cc;
      };
      allocated = allocate-IsSpent;
      renewed = renew-IsSpent;
    }
