-- ===== src/Redis/Triples.antt =====
-- What a process's calls do to the server's data, whichever of them fail: pre- and postconditions,
-- with one rule for each way to build an action.
use rrq.Prelude.{Bool, true, false, ◌≡◌, refl, List, [], ◌∷◌, if◌then◌else◌, subst}
use rrq.Redis.{Redis}
use rrq.Redis.Calls.{
  World, Io, Fault, served, lost_request, lost_reply, wrong_type, Error, Result, ok, err, call,
  pure, fail, attempt, next_fault, bind_result, ◌>>=◌,
}

abbrev pub Ends : {A D : Type 0} → (A → D → Type 0) → (D → Type 0) → Result A → D → Type 0
Ends Q E (ok a) db = Q a db
Ends Q E (err e) db = E db

module _ {r : Redis} where
  -- From data with `P`, the action returns with `Q` or fails with `E`.
  pub record Triple {A : Type 0} (P : r.Db → Type 0) (m : Io r A) (Q : A → r.Db → Type 0)
      (E : r.Db → Type 0) : Type 0 where
    pub at : (w : World r) → P w.db → Ends Q E (m w).0 (m w).1.db

  module _ {A : Type 0} {P : r.Db → Type 0} {Q : A → r.Db → Type 0} {E : r.Db → Type 0} where
    pub Triple-pure : (a : A) → ((db : r.Db) → P db → Q a db) → Triple P (pure a) Q E
    Triple-pure a h = record { at = λ w. h w.db }

    pub Triple-fail : (e : Error) → ((db : r.Db) → P db → E db) → Triple P (fail e) Q E
    Triple-fail e h = record { at = λ w. h w.db }

    pub Triple-if :
        (b : Bool) (m n : Io r A)
        → (b ≡ true → Triple P m Q E)
        → (b ≡ false → Triple P n Q E)
        → Triple P (if b then m else n) Q E
    Triple-if true m n f g = f refl
    Triple-if false m n f g = g refl

    -- A call that fails has either done nothing or done its part.
    pub Triple-call :
        (f : r.Db → A × r.Db)
        → ((db : r.Db) → P db → Q (f db).0 (f db).1)
        → ((db : r.Db) → P db → E db)
        → ((db : r.Db) → P db → E (f db).1)
        → Triple P (call f) Q E
    unfolding call
    Triple-call f done lost half = record { at = λ w h. go w w.faults h }
      where
        go :
            (w : World r) (fs : List Fault)
            → P w.db
            → Ends Q E (next_fault fs f w).0 (next_fault fs f w).1.db
        go w [] h = done w.db h
        go w (served ∷ fs) h = done w.db h
        go w (lost_request ∷ fs) h = lost w.db h
        go w (lost_reply ∷ fs) h = half w.db h
        go w (wrong_type ∷ fs) h = lost w.db h

  module _ {A B : Type 0} {P : r.Db → Type 0} {Q : B → r.Db → Type 0} {E : r.Db → Type 0} where
    pub Triple-bind :
        (M : A → r.Db → Type 0) (m : Io r A) (f : A → Io r B)
        → Triple P m M E
        → ((a : A) → Triple (M a) (f a) Q E)
        → Triple P (m >>= f) Q E
    Triple-bind M m f tm tf = record { at = λ w h. let (res, w') = m w in go res w' (tm.at w h) }
      where
        go :
            (res : Result A) (w' : World r)
            → Ends M E res w'.db
            → Ends Q E (bind_result (res, w') f).0 (bind_result (res, w') f).1.db
        go (ok a) w' h = (tf a).at w' h
        go (err e) w' h = h

  -- Code that goes on whether the action failed or not.
  pub Triple-attempt :
      {A : Type 0} {P : r.Db → Type 0} {Q : A → r.Db → Type 0} {E F : r.Db → Type 0} (m : Io r A)
      → Triple P m Q E
      → Triple P (attempt m) (λ res. Ends Q E res) F
  Triple-attempt m t = record { at = λ w h. t.at w h }

  -- Nothing is claimed of the data.
  pub Triple-any :
      {A : Type 0} {P : r.Db → Type 0} (m : Io r A) → Triple P m (λ _ _. Unit {0}) (λ _. Unit {0})
  Triple-any {A} m = record { at = λ w _. go (m w).0 (m w).1.db }
    where
      go : (res : Result A) (db : r.Db) → Ends (λ _ _. Unit {0}) (λ _. Unit {0}) res db
      go (ok a) db = tt
      go (err e) db = tt

  -- A precondition that is no matter of the data.
  pub Triple-given :
      {A C : Type 0} {Q : A → r.Db → Type 0} {E : r.Db → Type 0} (m : Io r A)
      → (C → Triple (λ _. Unit {0}) m Q E)
      → Triple (λ _. C) m Q E
  Triple-given m t = record { at = λ w c. (t c).at w tt }

  pub Triple-weaken :
      {A : Type 0} {P : r.Db → Type 0} {Q Q' : A → r.Db → Type 0} {E : r.Db → Type 0} (m : Io r A)
      → ((a : A) (db : r.Db) → Q a db → Q' a db)
      → Triple P m Q E
      → Triple P m Q' E
  Triple-weaken {A} {P} {Q} {Q'} {E} m h t = record {
    at = λ w pre. go (m w).0 (m w).1.db (t.at w pre);
  }
    where
      go : (res : Result A) (db : r.Db) → Ends Q E res db → Ends Q' E res db
      go (ok a) db q = h a db q
      go (err e) db q = q

  pub Triple-returned :
      {A : Type 0} {P : r.Db → Type 0} {Q : A → r.Db → Type 0} {E : r.Db → Type 0} {m : Io r A}
      → Triple P m Q E
      → (w : World r) {a : A} → P w.db
      → (m w).0 ≡ ok a
      → Q a (m w).1.db
  Triple-returned {A} {P} {Q} {E} {m} t w h e = subst (λ res. Ends Q E res (m w).1.db) e (t.at w h)

  -- The invariant `P`, kept whether the action returns or fails.
  abbrev pub Keeps : {A : Type 0} → (r.Db → Type 0) → Io r A → Type 0
  Keeps P m = Triple P m (λ _. P) P
