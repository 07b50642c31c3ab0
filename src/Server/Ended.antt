-- ===== src/Server/Ended.antt =====
-- What the end of a child leaves of the list of sessions.
use vncmanager.Base.{
  ℕ, ◌≡◌, ◌≢◌, refl, sym, ap, ◌∙◌, arith, Bool, true, false, Option, none, some, List, [], ◌∷◌,
  contains, ◌==◌, if◌then◌else◌, Option-cases, Bool-cases, ==_iff, inl, inr,
}
use mathlib.Core.Path.{subst}
use vncmanager.Sessions.Xvnc.{Xvnc, mark_visible}
use vncmanager.Sessions.Manager.{
  XvncManager, object, update_object, remove_object, get_session, has_pid, find_pid, destroy,
  erase_id, apply, notify_session_changed,
}
use vncmanager.Sessions.Invariant.{IsConsistent}
use vncmanager.Sessions.ChildDied.{
  child_died_delists, find_pid-contains, object-remove, mark_visible-id,
}
use vncmanager.Sessions

abbrev pub has_ended : List ℕ → Option Xvnc → Bool
has_ended pids none = false
has_ended pids (some x) = contains pids x.pid

-- No two listed sessions have the same process.
abbrev pub HasOwnProcesses : XvncManager → Type 0
HasOwnProcesses m =
    (pid i j : ℕ)
    → get_session i m ≢ none
    → get_session j m ≢ none
    → has_pid pid (object i m.objects) ≡ true
    → has_pid pid (object j m.objects) ≡ true
    → i ≡ j

find_pid-has :
    (pid i : ℕ) (xs : List Xvnc) (js : List ℕ)
    → find_pid pid xs js ≡ some i
    → has_pid pid (object i xs) ≡ true
find_pid-has pid i xs [] e = cc
find_pid-has pid i xs (j ∷ js) e = ground (arith, find_pid-has pid i xs js)

find_pid-misses :
    (pid i : ℕ) (xs : List Xvnc) (js : List ℕ)
    → find_pid pid xs js ≡ none
    → contains js i ≡ true
    → has_pid pid (object i xs) ≡ false
find_pid-misses pid i xs [] e c = cc
find_pid-misses pid i xs (j ∷ js) e c = ground (arith, find_pid-misses pid i xs js)

object-update :
    (f : Xvnc → Xvnc) (i j : ℕ) (xs : List Xvnc)
    → ((x : Xvnc) → (f x).id ≡ x.id)
    → i ≢ j
    → object j (update_object i f xs) ≡ object j xs
object-update f i j [] k n = refl
object-update f i j (x ∷ xs) k n = ground (arith, k x, object-update f i j xs k)

object-apply :
    (i j : ℕ) (m : XvncManager)
    → i ≢ j
    → object j (apply (mark_visible false) i m).objects ≡ object j m.objects
unfolding apply notify_session_changed
object-apply i j m n =
    ground
      (arith, object-update (λ y. (mark_visible false y).0) i j m.objects (mark_visible-id false))

object-destroy :
    (i j : ℕ) (m : XvncManager) → i ≢ j → object j (destroy i m).objects ≡ object j m.objects
unfolding destroy
object-destroy i j m n =
    object-remove i j (apply (mark_visible false) i m).objects n ∙ object-apply i j m n

-- The other sessions' objects stay as they were.
object-died :
    (held : Bool) (pid i j : ℕ) (m : XvncManager)
    → find_pid pid m.objects m.xvncs ≡ some i
    → i ≢ j
    → object j (Sessions.Manager.child_died held pid m).objects ≡ object j m.objects
unfolding Sessions.Manager.child_died
object-died true pid i j m e n = rw (e, Sessions.Manager.child_died) refl
object-died false pid i j m e n =
    rw (e, Sessions.Manager.child_died)
      (object-destroy i j (record m { xvncs = erase_id i m.xvncs }) n)

unknown_pid :
    (held : Bool) (pid : ℕ) (m : XvncManager)
    → find_pid pid m.objects m.xvncs ≡ none
    → Sessions.Manager.child_died held pid m ≡ m
unfolding Sessions.Manager.child_died
unknown_pid held pid m e = rw (e, Sessions.Manager.child_died) refl

listed : (i : ℕ) (m : XvncManager) → contains m.xvncs i ≡ true → get_session i m ≢ none
unfolding get_session
listed i m c = ground arith

contained : (i : ℕ) (m : XvncManager) → get_session i m ≢ none → contains m.xvncs i ≡ true
unfolding get_session
contained i m c = ground arith

-- Listed sessions with the sessions of these processes taken out.
abbrev pub Remaining : List ℕ → XvncManager → XvncManager → Type 0
Remaining pids m m' =
    (j : ℕ)
    → get_session j m' ≡ (if has_ended pids (object j m.objects) then none else get_session j m)

-- A list to which `child_died` brings one that is consistent.
abbrev pub Good : XvncManager → Type 0
Good m = IsConsistent m × HasOwnProcesses m

other_ended :
    (pid : ℕ) (pids : List ℕ) (o : Option Xvnc)
    → has_pid pid o ≡ false
    → has_ended (pid ∷ pids) o ≡ has_ended pids o
other_ended pid pids none h = refl
other_ended pid pids (some x) h = ground arith

self_ended :
    (pid : ℕ) (pids : List ℕ) (o : Option Xvnc)
    → has_pid pid o ≡ true
    → has_ended (pid ∷ pids) o ≡ true
self_ended pid pids none h = cc
self_ended pid pids (some x) h = ground arith

none_left : (b : Bool) (o : Option ℕ) → o ≡ none → (if b then none else o) ≡ none
none_left true o e = refl
none_left false o e = e

unlisted : (i : ℕ) (m : XvncManager) → contains m.xvncs i ≡ false → get_session i m ≡ none
unfolding get_session
unlisted i m c = ground arith

-- A session of another process remains if it did before.
remains :
    (pid j : ℕ) (pids : List ℕ) (m : XvncManager)
    → (contains m.xvncs j ≡ true → has_pid pid (object j m.objects) ≡ false)
    → (if has_ended pids (object j m.objects) then none else get_session j m)
      ≡ (if has_ended (pid ∷ pids) (object j m.objects) then none else get_session j m)
remains pid j pids m other = elim (Bool-cases (contains m.xvncs j)) [
  | inl c ↦
      ap (λ b. if b then none else get_session j m)
        (sym (other_ended pid pids (object j m.objects) (other c)))
  | inr c ↦
      none_left _ (get_session j m) (unlisted j m c)
      ∙ sym (none_left _ (get_session j m) (unlisted j m c))
]

-- What one child leaves: a good list, from which further children take what they took from the one
-- before, less the session of this child.
abbrev pub Leaves : ℕ → XvncManager → XvncManager → Type 0
Leaves pid m m1 =
    Good m1
    × ((pids : List ℕ) (m' : XvncManager) → Remaining pids m1 m' → Remaining (pid ∷ pids) m m')

known_pid :
    (held : Bool) (pid i : ℕ) (m : XvncManager)
    → Good m
    → find_pid pid m.objects m.xvncs ≡ some i
    → Leaves pid m (Sessions.Manager.child_died held pid m)
known_pid held pid i m (v, own) e =
    let m1 : XvncManager = Sessions.Manager.child_died held pid m in
    let (v', gone, others) = child_died_delists held pid i m v e in
    let same : (j : ℕ) → i ≢ j → object j m1.objects ≡ object j m.objects =
      λ j n. object-died held pid i j m e n in
    let its : has_pid pid (object i m.objects) ≡ true = find_pid-has pid i m.objects m.xvncs e in
    let lists : get_session i m ≢ none = listed i m (find_pid-contains pid i m.objects m.xvncs e) in
    let apart : (j : ℕ) → get_session j m1 ≢ none → i ≢ j =
      λ j l n. l (subst (λ k. get_session k m1 ≡ none) n gone) in
    let before : (j : ℕ) → get_session j m1 ≢ none → get_session j m ≢ none =
      λ j l x. l (others j (λ n. apart j l (sym n)) ∙ x) in
    let had : (k j : ℕ)
        → i ≢ j
        → has_pid k (object j m1.objects) ≡ true
        → has_pid k (object j m.objects) ≡ true =
      λ k j n h. ap (has_pid k) (sym (same j n)) ∙ h in
    (
      (
        v',
        λ k a b la lb ha hb.
            own k a b (before a la) (before b lb) (had k a (apart a la) ha)
              (had k b (apart b lb) hb),
      ),
      λ pids m' r j. elim (Bool-cases (i == j)) [
        | inl here ↦
            let n : i ≡ j = (==_iff i j).0 here in
            let gone' : get_session j m1 ≡ none = subst (λ k. get_session k m1 ≡ none) n gone in
            let its' : has_pid pid (object j m.objects) ≡ true =
              subst (λ k. has_pid pid (object k m.objects) ≡ true) n its in
            r j
            ∙ none_left _ (get_session j m1) gone'
            ∙ sym (
                ap (λ b. if b then none else get_session j m)
                  (self_ended pid pids (object j m.objects) its'))
        | inr there ↦
            let n : i ≢ j = ground arith in
            r j
            ∙ ap (λ o. if has_ended pids o then none else get_session j m1) (same j n)
            ∙ ap (λ g. if has_ended pids (object j m.objects) then none else g)
                (others j (λ x. n (sym x)))
            ∙ remains pid j pids m (λ c. elim (Bool-cases (has_pid pid (object j m.objects))) [
              | inl h ↦ absurd (n (own pid i j lists (listed j m c) its h))
              | inr h ↦ h
            ])
      ],
    )

pub child_lem :
    (held : Bool) (pid : ℕ) (m : XvncManager)
    → Good m
    → Leaves pid m (Sessions.Manager.child_died held pid m)
child_lem held pid m g = elim (Option-cases (find_pid pid m.objects m.xvncs)) [
  | inl e ↦
      subst (Leaves pid m) (sym (unknown_pid held pid m e))
        (g, λ pids m' r j. r j ∙ remains pid j pids m (find_pid-misses pid j m.objects m.xvncs e))
  | inr (i, e) ↦ known_pid held pid i m g e
]
