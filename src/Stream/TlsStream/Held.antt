-- ===== src/Stream/TlsStream/Held.antt =====
-- The gnutls objects that a TLSStream holds, over one call.
use vncmanager.Base.{
  ◌+◌, ◌≡◌, sym, ap, ◌∙◌, arith, true, false, List, [], ◌∷◌, ◌++◌, Action, Leads, Bool-cases, inl,
  inr,
}
use vncmanager.Stream.TlsStream.Session.{Call, Gnutls, TlsObject, call, try_call}
use vncmanager.Stream.TlsStream.Counts.{
  Handle, anon_cred, cert_cred, allocates, appended, calls-keep, closes, count, creates,
  creates-allocates, creates-closes, creates-releases, creates_not, flag, held, held-called,
  held-keep, is_neutral, keep, neutral-allocates, neutral-closes, neutral-releases, releases, same,
}

-- Nothing was released, and no descriptor closed.
pub record IsOpen (s : TlsObject) : Type 0 where
  pub unreleased : (h : Handle) → count (releases h) s.calls ≡ 0
  pub unclosed : count closes s.calls ≡ 0

-- The pointers that are not null are those that were allocated.
pub record IsHeld (g : Gnutls) (s : TlsObject) : Type 0 where
  pub allocated : (h : Handle) → count (allocates g h) s.calls ≡ flag (held h s)
  pub is_open : IsOpen s

-- An object was made, and no pointer leads to it yet.
pub record IsPending (g : Gnutls) (k : Handle) (s : TlsObject) : Type 0 where
  pub allocated : (h : Handle) → count (allocates g h) s.calls ≡ flag (held h s) + same h k
  pub is_open : IsOpen s

pub IsOpen-called :
    (c : Call) (s : TlsObject)
    → ((h : Handle) → releases h c ≡ 0)
    → closes c ≡ 0
    → IsOpen s
    → IsOpen (record s { calls = s.calls ++ (c ∷ []) })
IsOpen-called c s r e i = record {
  unreleased = λ h. omega (arith, appended (releases h) s.calls c, i.unreleased h, r h);
  unclosed = omega (arith, appended closes s.calls c, i.unclosed, e);
}

module _ (g : Gnutls) where
  -- Whichever call throws, the object is consistent.
  abbrev pub Steps : {A : Type 0} (P Q : TlsObject → Type 0) → Action TlsObject A → Type 0
  Steps P Q m = Leads P Q (λ _ s. IsHeld g s) m

  -- The pointers of which the caller knows that they are null.
  abbrev pub Lacks : List Handle → TlsObject → Type 0
  Lacks [] s = Unit
  Lacks (k ∷ ks) s = (held k s ≡ false) × Lacks ks s

  pub neutral :
      (c : Call) (s : TlsObject)
      → is_neutral c ≡ true
      → IsHeld g s
      → IsHeld g (record s { calls = s.calls ++ (c ∷ []) })
  neutral c s n i = record {
    allocated = λ h. omega (
      arith,
      appended (allocates g h) s.calls c,
      i.allocated h,
      neutral-allocates g h c n,
      ap flag (held-called h s (s.calls ++ (c ∷ []))),
    );
    is_open = IsOpen-called c s (λ h. neutral-releases h c n) (neutral-closes c n) i.is_open;
  }

  pub refused :
      (k : Handle) (s : TlsObject)
      → g.succeeds (creates k) ≡ false
      → IsHeld g s
      → IsHeld g (record s { calls = s.calls ++ (creates k ∷ []) })
  refused k s e i = record {
    allocated = λ h. omega (
      arith,
      appended (allocates g h) s.calls (creates k),
      i.allocated h,
      creates_not g h k e,
      ap flag (held-called h s (s.calls ++ (creates k ∷ []))),
    );
    is_open = IsOpen-called (creates k) s (λ h. creates-releases h k) (creates-closes k) i.is_open;
  }

  pub made :
      (k : Handle) (s : TlsObject)
      → g.succeeds (creates k) ≡ true
      → IsHeld g s
      → IsPending g k (record s { calls = s.calls ++ (creates k ∷ []) })
  made k s e i = record {
    allocated = λ h. omega (
      arith,
      appended (allocates g h) s.calls (creates k),
      i.allocated h,
      creates-allocates g h k e,
      ap flag (held-called h s (s.calls ++ (creates k ∷ []))),
    );
    is_open = IsOpen-called (creates k) s (λ h. creates-releases h k) (creates-closes k) i.is_open;
  }

  pub kept : (k : Handle) (s : TlsObject) → held k s ≡ false → IsPending g k s → IsHeld g (keep k s)
  kept k s e i = record {
    allocated = λ h. rw (calls-keep k s) (i.allocated h ∙ sym (held-keep h k s e));
    is_open = record {
      unreleased = λ h. rw (calls-keep k s) (i.is_open.unreleased h);
      unclosed = rw (calls-keep k s) i.is_open.unclosed;
    };
  }

  pub Lacks-called :
      (ks : List Handle) (s : TlsObject) (cs : List Call)
      → Lacks ks s
      → Lacks ks (record s { calls = cs })
  Lacks-called [] s cs l = tt
  Lacks-called (k ∷ ks) s cs l = (held-called k s cs ∙ l.0, Lacks-called ks s cs l.1)

  abbrev pub Ready : List Handle → TlsObject → Type 0
  Ready ks s = IsHeld g s × Lacks ks s

  abbrev pub Made : Handle → List Handle → TlsObject → Type 0
  Made k ks s = IsPending g k s × Lacks ks s

  pub makes :
      (k : Handle) (ks : List Handle) → Steps (Ready ks) (Made k ks) (try_call g (creates k))
  makes k ks = record {
    at = λ s (i, l). elim (Bool-cases (g.succeeds (creates k))) [
      | inl success ↦ rw success (made k s success i, Lacks-called ks s _ l)
      | inr failure ↦ rw failure (refused k s failure i)
    ];
  }

  pub tries :
      (c : Call) (ks : List Handle)
      → is_neutral c ≡ true
      → Steps (Ready ks) (Ready ks) (try_call g c)
  tries c ks n = record {
    at = λ s (i, l). elim (Bool-cases (g.succeeds c)) [
      | inl success ↦ rw success (neutral c s n i, Lacks-called ks s _ l)
      | inr failure ↦ rw failure (neutral c s n i)
    ];
  }

  pub does :
      (c : Call) (ks : List Handle) → is_neutral c ≡ true → Steps (Ready ks) (Ready ks) (call c)
  does c ks n = record { at = λ s (i, l). (neutral c s n i, Lacks-called ks s _ l) }

  abbrev pub credentials : List Handle
  credentials = anon_cred ∷ cert_cred ∷ []
