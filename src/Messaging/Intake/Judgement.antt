-- ===== src/Messaging/Intake/Judgement.antt =====
-- Two judgements on a handler of src/dispatch_core/messaging/intake.py, and the rules that build them.
use dispatch_core.Shared.{
  ◌<◌, if◌then◌else◌, String, ◌==◌, string_eq, pair_eq, Option, none, some, [], ◌∷◌, ◌≡◌, refl, sym,
  ◌∙◌, ap, arith, inl, inr,
}
use dispatch_core.Shared.Dict.{Dict, Distinct, get, put, put-Distinct, put_cases}
use dispatch_core.Domain.Errors.{Result, ok, err}
use dispatch_core.Domain.WorkOrder.{WorkOrder}
use dispatch_core.Application.Exec.{Exec, pure, lift, ◌>>=◌}
use dispatch_core.Application.Service.{OrderRequest}
use dispatch_core.Messaging.Intake.Data.{
  IntakeState, PackStore, PackRevision, Library, World, ActorIdentity, row_of, save, clear, delete,
}
use dispatch_core.Messaging.Intake.Flow.{submit}
use dispatch_core.Messaging.Intake.Validity.{IsReady, IsValid}

get-delete :
    (d : Dict (String × String) IntakeState) (k j : String × String)
    → get (delete d k) j ≡ (if k == j then none else get d j)
unfolding delete get
get-delete [] k j = ground arith
get-delete ((i, t) ∷ d) k j =
    ground (arith, pair_eq.agrees k j, pair_eq.agrees i k, pair_eq.agrees i j, get-delete d k j)

delete-Distinct :
    (d : Dict (String × String) IntakeState) (k : String × String)
    → Distinct d
    → Distinct (delete d k)
unfolding delete get
delete-Distinct [] k h = tt
delete-Distinct ((j, s) ∷ d) k h = ground (arith, delete-Distinct d k h.1, h.0, get-delete d k j)

-- A table into which a ready state is written stays valid.
pub put-IsValid :
    {S : Type 0} (packs : PackStore) (w : World S) (o a : String) (s : IntakeState)
    → 0 < s.pack_version
    → ((r : PackRevision) → packs.revision o s.pack_version ≡ some r → IsReady r.definition s)
    → IsValid packs w
    → IsValid packs (record w { sessions = put w.sessions (o, a) s })
put-IsValid packs w o a s n h v = record {
  distinct = put-Distinct w.sessions (o, a) s v.distinct;
  versioned = λ o' a' t q. elim (put_cases w.sessions (o, a) (o', a') s t q) [
    | inl e ↦ rw e.1 n
    | inr e ↦ v.versioned o' a' t e.1
  ];
  ready = λ o' a' t r q. elim (put_cases w.sessions (o, a) (o', a') s t q) [
    | inl e ↦ rw e.1 (let eo : o' ≡ o = sym (ap (λ p. p.0) e.0) in rw eo (h r))
    | inr e ↦ v.ready o' a' t r e.1
  ];
}

module _ {S : Type 0} (packs : PackStore)
    (create_order_once : OrderRequest → String → Exec S WorkOrder) where
  -- The handler keeps saved states ready and orders nothing.
  pub record Keeps {A : Type 0} (m : Exec (World S) A) : Type 0 where
    pub valid : (w : World S) → IsValid packs w → IsValid packs (m w).1
    pub quiet : (w : World S) → (m w).1.dispatch ≡ w.dispatch

  -- What is ordered, if anything: what may be.
  pub data Ordered (May : OrderRequest → Type 0) (s t : S) : Type 0 where
    nothing : t ≡ s → Ordered May s t
    one :
        (a : OrderRequest) (order_id : String)
        → May a
        → t ≡ (create_order_once a order_id s).1
        → Ordered May s t

  pub Ordered-weaken :
      {May Must : OrderRequest → Type 0} {s t : S}
      → ((a : OrderRequest) → May a → Must a)
      → Ordered May s t
      → Ordered Must s t
  Ordered-weaken f (nothing e) = nothing e
  Ordered-weaken f (one a order_id m e) = one a order_id (f a m) e

  -- The handler keeps saved states ready, and orders what may be ordered.
  pub record Sound {A : Type 0} (May : OrderRequest → Type 0) (m : Exec (World S) A) : Type 0 where
    pub valid : (w : World S) → IsValid packs w → IsValid packs (m w).1
    pub ordered : (w : World S) → IsValid packs w → Ordered May w.dispatch (m w).1.dispatch

  -- The same of a handler that looks at the world for what may be ordered.
  pub record Answers {A : Type 0} (May : World S → OrderRequest → Type 0) (m : Exec (World S) A)
      : Type 0 where
    pub valid : (w : World S) → IsValid packs w → IsValid packs (m w).1
    pub ordered : (w : World S) → IsValid packs w → Ordered (May w) w.dispatch (m w).1.dispatch

  pub Keeps-Answers :
      {A : Type 0} {May : World S → OrderRequest → Type 0} {m : Exec (World S) A}
      → Keeps m
      → Answers May m
  Keeps-Answers k = record { valid = k.valid; ordered = λ w v. nothing (k.quiet w) }

  pub Keeps-Sound :
      {A : Type 0} {May : OrderRequest → Type 0} {m : Exec (World S) A} → Keeps m → Sound May m
  Keeps-Sound k = record { valid = k.valid; ordered = λ w v. nothing (k.quiet w) }

  pub pure-Keeps : {A : Type 0} (a : A) → Keeps (pure {S = World S} a)
  pure-Keeps a = record { valid = λ w v. v; quiet = λ w. refl }

  pub lift-Keeps : {A : Type 0} (r : Result A) → Keeps (lift {S = World S} r)
  lift-Keeps r = record { valid = λ w v. v; quiet = λ w. refl }

  -- What a chain goes on to from the end of its first part.
  abbrev from : {A B : Type 0} → (A → Exec (World S) B) → Result A × World S → World S
  from f (ok a, w) = (f a w).1
  from f (err e, w) = w

  from-IsValid :
      {A B : Type 0} (f : A → Exec (World S) B) (p : Result A × World S)
      → ((a : A) (w : World S) → IsValid packs w → IsValid packs (f a w).1)
      → IsValid packs p.1
      → IsValid packs (from f p)
  from-IsValid f (ok a, w) h v = h a w v
  from-IsValid f (err e, w) h v = v

  from-quiet :
      {A B : Type 0} (f : A → Exec (World S) B) (p : Result A × World S)
      → ((a : A) (w : World S) → (f a w).1.dispatch ≡ w.dispatch)
      → (from f p).dispatch ≡ p.1.dispatch
  from-quiet f (ok a, w) h = h a w
  from-quiet f (err e, w) h = refl

  from-Ordered :
      {A B : Type 0} {May : OrderRequest → Type 0} (f : A → Exec (World S) B)
      (p : Result A × World S)
      → ((a : A) (w : World S) → IsValid packs w → Ordered May w.dispatch (f a w).1.dispatch)
      → IsValid packs p.1
      → Ordered May p.1.dispatch (from f p).dispatch
  from-Ordered f (ok a, w) h v = h a w v
  from-Ordered f (err e, w) h v = nothing refl

  step-from :
      {A B : Type 0} (f : A → Exec (World S) B) (p : Result A × World S) (w : World S)
      → (((λ _. p) >>= f) w).1 ≡ from f p
  step-from f (ok a, w') w = refl
  step-from f (err e, w') w = refl

  bind-from :
      {A B : Type 0} (m : Exec (World S) A) (f : A → Exec (World S) B) (w : World S)
      → ((m >>= f) w).1 ≡ from f (m w)
  bind-from m f w = step-from f (m w) w

  Ordered-after :
      {May : OrderRequest → Type 0} (s s' t : S) → s ≡ s' → Ordered May s t → Ordered May s' t
  Ordered-after s s' t e o = rw e at o

  pub bind-Keeps :
      {A B : Type 0} (m : Exec (World S) A) (f : A → Exec (World S) B)
      → Keeps m
      → ((a : A) → Keeps (f a))
      → Keeps (m >>= f)
  bind-Keeps m f k h = record {
    valid = λ w v. rw (bind-from m f w) (from-IsValid f (m w) (λ a. (h a).valid) (k.valid w v));
    quiet = λ w. rw (bind-from m f w) (from-quiet f (m w) (λ a. (h a).quiet) ∙ k.quiet w);
  }

  pub bind-Sound :
      {A B : Type 0} {May : OrderRequest → Type 0} (m : Exec (World S) A) (f : A → Exec (World S) B)
      → Keeps m
      → ((a : A) → Sound May (f a))
      → Sound May (m >>= f)
  bind-Sound m f k h = record {
    valid = λ w v. rw (bind-from m f w) (from-IsValid f (m w) (λ a. (h a).valid) (k.valid w v));
    ordered = λ w v. rw (bind-from m f w) (
        Ordered-after (m w).1.dispatch w.dispatch (from f (m w)).dispatch (k.quiet w)
          (from-Ordered f (m w) (λ a. (h a).ordered) (k.valid w v)));
  }

  pub save-Keeps :
      (identity : ActorIdentity) (s : IntakeState) (n : 0 < s.pack_version)
      → ((r : PackRevision)
          → packs.revision identity.organization_id s.pack_version ≡ some r
          → IsReady r.definition s)
      → Keeps (save {S = S} identity s)
  unfolding save
  save-Keeps identity s n h = record {
    valid = λ w v. put-IsValid packs w identity.organization_id identity.actor_id s n h v;
    quiet = λ w. refl;
  }

  pub clear-Keeps : (identity : ActorIdentity) → Keeps (clear {S = S} identity)
  unfolding clear
  clear-Keeps identity = record {
    valid = λ w v.
        let was : (o a : String) (t : IntakeState)
            → get (delete w.sessions (row_of identity)) (o, a) ≡ some t
            → get w.sessions (o, a) ≡ some t =
          λ o a t q. ground (arith, q, get-delete w.sessions (row_of identity) (o, a)) in
        record {
          distinct = delete-Distinct w.sessions (row_of identity) v.distinct;
          versioned = λ o a t q. v.versioned o a t (was o a t q);
          ready = λ o a t r q. v.ready o a t r (was o a t q);
        };
    quiet = λ w. refl;
  }

  -- A call of the service with what may be ordered, and what follows it.
  pub submit_then :
      {B : Type 0} {May : OrderRequest → Type 0} (library : Library)
      (public_base_url : Option String) (a : OrderRequest) (order_id : String)
      (f : WorkOrder → Exec (World S) B)
      → May a
      → ((o : WorkOrder) → Keeps (f o))
      → Sound May (submit packs library public_base_url create_order_once a order_id >>= f)
  unfolding submit
  submit_then library public_base_url a order_id f c h =
      let m = submit packs library public_base_url create_order_once a order_id in
      record {
        valid = λ w v. rw (bind-from m f w) (
            from-IsValid f (m w) (λ a. (h a).valid)
              (record { distinct = v.distinct; versioned = v.versioned; ready = v.ready }));
        ordered =
            λ w v. rw (bind-from m f w) (one a order_id c (from-quiet f (m w) (λ a. (h a).quiet)));
      }
