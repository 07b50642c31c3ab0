-- ===== src/Sessions/ChildDied.antt =====
-- XvncManager::childDied: what the end of an Xvnc process does to the list.
use vncmanager.Base.{
  ℕ, suc, ◌<◌, ◌≤◌, ◌≡◌, ◌≢◌, refl, ap, arith, Bool, true, false, none, some, List, [], ◌∷◌,
  contains, ◌==◌, if◌then◌else◌,
}
use vncmanager.Sessions.Xvnc.{Xvnc, mark_visible}
use vncmanager.Sessions.Manager.{
  XvncManager, object, remove_object, get_session, apply, find_pid, erase_id, destroy, child_died,
  notify_session_changed,
}
use vncmanager.Sessions.Invariant.{Ascending, Below, Backed, IsConsistent, update-Backed}

Ascending-mono : (low high : ℕ) (js : List ℕ) → low ≤ high → Ascending high js → Ascending low js
Ascending-mono low high [] h a = tt
Ascending-mono low high (j ∷ js) h a = (omega arith, a.1)

erase-Ascending : (low i : ℕ) (js : List ℕ) → Ascending low js → Ascending low (erase_id i js)
erase-Ascending low i [] a = a
erase-Ascending low i (j ∷ js) a =
    ground (arith, erase-Ascending (suc j) i js, Ascending-mono low (suc j) js)

erase-Below : (n i : ℕ) (js : List ℕ) → Below n js → Below n (erase_id i js)
erase-Below n i [] b = b
erase-Below n i (j ∷ js) b = ground (arith, erase-Below n i js)

contains_above : (low i : ℕ) (js : List ℕ) → Ascending low js → i < low → contains js i ≡ false
contains_above low i [] a h = refl
contains_above low i (j ∷ js) a h = ground (arith, contains_above (suc j) i js)

contains-erase :
    (low i j : ℕ) (js : List ℕ)
    → Ascending low js
    → contains (erase_id i js) j ≡ (if i == j then false else contains js j)
contains-erase low i j [] a = ground arith
contains-erase low i j (k ∷ js) a =
    ground (arith, contains-erase (suc k) i j js, contains_above (suc k) i js)

pub object-remove : (i j : ℕ) (xs : List Xvnc) → i ≢ j → object j (remove_object i xs) ≡ object j xs
object-remove i j [] n = refl
object-remove i j (x ∷ xs) n = ground (arith, object-remove i j xs)

remove-Backed_above :
    (low i : ℕ) (xs : List Xvnc) (js : List ℕ)
    → Ascending low js
    → i < low
    → Backed xs js
    → Backed (remove_object i xs) js
remove-Backed_above low i xs [] a h b = tt
remove-Backed_above low i xs (j ∷ js) a h b = (
  rw (object-remove i j xs (omega arith)) b.0,
  remove-Backed_above (suc j) i xs js a.1 (omega arith) b.1,
)

remove-Backed :
    (low i : ℕ) (xs : List Xvnc) (js : List ℕ)
    → Ascending low js
    → Backed xs js
    → Backed (remove_object i xs) (erase_id i js)
remove-Backed low i xs [] a b = tt
remove-Backed low i xs (j ∷ js) a b = ground (
  arith,
  remove-Backed_above (suc j) i xs js,
  remove-Backed (suc j) i xs js,
  object-remove i j xs,
)

erase-Backed : (i : ℕ) (xs : List Xvnc) (js : List ℕ) → Backed xs js → Backed xs (erase_id i js)
erase-Backed i xs [] b = b
erase-Backed i xs (j ∷ js) b = ground (arith, erase-Backed i xs js)

apply_fields :
    (f : Xvnc → Xvnc × Bool) (i : ℕ) (m : XvncManager)
    → ((apply f i m).xvncs ≡ m.xvncs) × ((apply f i m).next_id ≡ m.next_id)
unfolding apply notify_session_changed
apply_fields f i m = ground arith

pub mark_visible-id : (b : Bool) (x : Xvnc) → (mark_visible b x).0.id ≡ x.id
unfolding mark_visible
mark_visible-id b x = ground arith

apply-Backed :
    (f : Xvnc → Xvnc × Bool) (i : ℕ) (m : XvncManager) (js : List ℕ)
    → ((x : Xvnc) → (f x).0.id ≡ x.id)
    → Backed m.objects js
    → Backed (apply f i m).objects js
unfolding apply notify_session_changed
apply-Backed f i m js k b = ground (arith, update-Backed (λ y. (f y).0) i m.objects js k b)

-- The state once the entry is gone, whether the object lives on or not.
abbrev delisted : (i : ℕ) (m : XvncManager) → XvncManager
delisted i m = record m { xvncs = erase_id i m.xvncs }

delisted-IsConsistent : (i : ℕ) (m : XvncManager) → IsConsistent m → IsConsistent (delisted i m)
delisted-IsConsistent i m v = record {
  ascending = erase-Ascending 0 i m.xvncs v.ascending;
  below = erase-Below m.next_id i m.xvncs v.below;
  backed = erase-Backed i m.objects m.xvncs v.backed;
}

destroyed-IsConsistent :
    (i : ℕ) (m : XvncManager) → IsConsistent m → IsConsistent (destroy i (delisted i m))
unfolding destroy
destroyed-IsConsistent i m v =
    let m' : XvncManager = record m { xvncs = erase_id i m.xvncs } in
    let f : ((apply (mark_visible false) i m').xvncs ≡ m'.xvncs)
        × ((apply (mark_visible false) i m').next_id ≡ m.next_id) =
      apply_fields (mark_visible false) i m' in
    record {
      ascending = rw f.0 (erase-Ascending 0 i m.xvncs v.ascending);
      below = rw (f.0, f.1) (erase-Below m.next_id i m.xvncs v.below);
      backed = rw f.0 (
          remove-Backed 0 i _ m.xvncs v.ascending
            (apply-Backed (mark_visible false) i m' m.xvncs (mark_visible-id false) v.backed));
    }

delisted_sessions :
    (i : ℕ) (m m' : XvncManager)
    → IsConsistent m
    → m'.xvncs ≡ erase_id i m.xvncs
    → (get_session i m' ≡ none) × ((j : ℕ) → j ≢ i → get_session j m' ≡ get_session j m)
unfolding get_session
delisted_sessions i m m' v e = (
  rw e (ground (arith, contains-erase 0 i i m.xvncs v.ascending)),
  λ j n. rw e (ground (arith, contains-erase 0 i j m.xvncs v.ascending)),
)

-- When the process of a session of a consistent list ends, that session leaves the list, every other
-- session stays, and the list stays consistent.
pub child_died_delists :
    (held : Bool) (pid i : ℕ) (m : XvncManager)
    → IsConsistent m
    → find_pid pid m.objects m.xvncs ≡ some i
    → IsConsistent (child_died held pid m)
      × (get_session i (child_died held pid m) ≡ none)
      × ((j : ℕ) → j ≢ i → get_session j (child_died held pid m) ≡ get_session j m)
unfolding child_died
child_died_delists true pid i m v e =
    let s = delisted_sessions i m (delisted i m) v refl in
    rw (e, child_died) (delisted-IsConsistent i m v, s.0, s.1)
child_died_delists false pid i m v e =
    let gone : (destroy i (delisted i m)).xvncs ≡ erase_id i m.xvncs =
      unfold destroy in (apply_fields (mark_visible false) i (delisted i m)).0 in
    let s = delisted_sessions i m (destroy i (delisted i m)) v gone in
    rw (e, child_died) (destroyed-IsConsistent i m v, s.0, s.1)

pub find_pid-contains :
    (pid i : ℕ) (xs : List Xvnc) (js : List ℕ) → find_pid pid xs js ≡ some i → contains js i ≡ true
find_pid-contains pid i xs [] e = cc
find_pid-contains pid i xs (j ∷ js) e = ground (arith, find_pid-contains pid i xs js)

-- While a connection or a controller holds a session of a consistent list, its end leaves the version of the list as it
-- was, though the list has changed.
pub child_died_keeps_version :
    (pid i : ℕ) (m : XvncManager)
    → IsConsistent m
    → find_pid pid m.objects m.xvncs ≡ some i
    → ((child_died true pid m).session_list_version ≡ m.session_list_version)
      × ((child_died true pid m).xvncs ≢ m.xvncs)
unfolding child_died
child_died_keeps_version pid i m v e =
    rw (e, child_died)
      (
        refl,
        λ same. ground (
          arith,
          contains-erase 0 i i m.xvncs v.ascending,
          find_pid-contains pid i m.objects m.xvncs,
          ap (λ (js : List ℕ). contains js i) same,
        ),
      )
