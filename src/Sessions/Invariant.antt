-- ===== src/Sessions/Invariant.antt =====
-- What a consistent XvncManager is: the keys are distinct, below `m_nextId`, and each has its object;
-- and `createSession` on it.
use vncmanager.Base.{
  ℕ, suc, ◌+◌, ◌<◌, ◌≤◌, ◌≡◌, ◌≢◌, refl, arith, Bool, true, false, none, some, List, [], ◌∷◌, All,
  contains, ◌==◌, if◌then◌else◌, ok,
}
use vncmanager.Sessions.Xvnc.{Xvnc, started}
use vncmanager.Sessions.Manager.{
  XvncManager, object, update_object, spawned, insert_id, create_session, get_session, apply,
  notify_session_changed,
}

-- Each key above `low` and above those before it.
abbrev pub Ascending : ℕ → List ℕ → Type 0
Ascending low [] = Unit
Ascending low (i ∷ js) = (low ≤ i) × Ascending (suc i) js

abbrev pub Below : ℕ → List ℕ → Type 0
Below n = All (λ i. i < n)

abbrev pub Backed : List Xvnc → List ℕ → Type 0
Backed xs = All (λ i. object i xs ≢ none)

pub record IsConsistent (m : XvncManager) : Type 0 where
  pub ascending : Ascending 0 m.xvncs
  pub below : Below m.next_id m.xvncs
  pub backed : Backed m.objects m.xvncs

pub not_contained : (n : ℕ) (js : List ℕ) → Below n js → contains js n ≡ false
not_contained n [] b = refl
not_contained n (j ∷ js) b = ground (arith, not_contained n js)

insert-Ascending :
    (low n : ℕ) (js : List ℕ)
    → low ≤ n
    → Below n js
    → Ascending low js
    → Ascending low (insert_id n js)
insert-Ascending low n [] h b a = (h, tt)
insert-Ascending low n (j ∷ js) h b a = ground (arith, insert-Ascending (suc j) n js)

insert-Below : (n : ℕ) (js : List ℕ) → Below n js → Below (n + 1) (insert_id n js)
insert-Below n [] b = omega arith
insert-Below n (j ∷ js) b = ground (arith, insert-Below n js)

Below-suc : (n : ℕ) (js : List ℕ) → Below n js → Below (n + 1) js
Below-suc n [] b = tt
Below-suc n (j ∷ js) b = (omega arith, Below-suc n js b.1)

insert-Backed :
    (x : Xvnc) (xs : List Xvnc) (js : List ℕ)
    → Below x.id js
    → Backed xs js
    → Backed (x ∷ xs) (insert_id x.id js)
insert-Backed x xs [] b k = ground arith
insert-Backed x xs (j ∷ js) b k = ground (arith, insert-Backed x xs js)

contains-insert :
    (n j : ℕ) (js : List ℕ) → contains (insert_id n js) j ≡ (if n == j then true else contains js j)
contains-insert n j [] = refl
contains-insert n j (i ∷ js) = ground (arith, contains-insert n j js)

-- With a consistent list, a session whose process starts is listed under an id that was not listed,
-- the other ids find what they found, and the list stays consistent.
pub create_session_lists :
    (m : XvncManager) (pid display : ℕ)
    → IsConsistent m
    → (m' : XvncManager) × (create_session (spawned pid display) m ≡ ok m.next_id m')
      × IsConsistent m'
      × (get_session m.next_id m ≡ none)
      × (get_session m.next_id m' ≡ some m.next_id)
      × ((i : ℕ) → i ≢ m.next_id → get_session i m' ≡ get_session i m)
unfolding create_session get_session
create_session_lists m pid display v =
    let new : contains m.xvncs m.next_id ≡ false = not_contained m.next_id m.xvncs v.below in
    (
      record {
        objects = started m.next_id pid display ∷ m.objects;
        xvncs = insert_id m.next_id m.xvncs;
        next_id = m.next_id + 1;
        session_list_version = m.session_list_version;
      },
      rw new,
      record {
        ascending = insert-Ascending 0 m.next_id m.xvncs (omega arith) v.below v.ascending;
        below = insert-Below m.next_id m.xvncs v.below;
        backed = insert-Backed (started m.next_id pid display) m.objects m.xvncs v.below v.backed;
      },
      rw new,
      ground (arith, contains-insert m.next_id m.next_id m.xvncs),
      λ i h. ground (arith, contains-insert m.next_id i m.xvncs),
    )

object-update :
    (f : Xvnc → Xvnc) (i j : ℕ) (xs : List Xvnc)
    → ((x : Xvnc) → (f x).id ≡ x.id)
    → object j xs ≢ none
    → object j (update_object i f xs) ≢ none
object-update f i j [] k h = h
object-update f i j (x ∷ xs) k h = ground (arith, k x, object-update f i j xs k)

pub update-Backed :
    (f : Xvnc → Xvnc) (i : ℕ) (xs : List Xvnc) (js : List ℕ)
    → ((x : Xvnc) → (f x).id ≡ x.id)
    → Backed xs js
    → Backed (update_object i f xs) js
update-Backed f i xs [] k b = tt
update-Backed f i xs (j ∷ js) k b = (object-update f i j xs k b.0, update-Backed f i xs js k b.1)

apply-IsConsistent :
    (f : Xvnc → Xvnc × Bool) (i : ℕ) (m : XvncManager)
    → ((x : Xvnc) → (f x).0.id ≡ x.id)
    → IsConsistent m
    → IsConsistent (apply f i m)
unfolding apply notify_session_changed
apply-IsConsistent f i m k v =
    ground (arith, update-Backed (λ y. (f y).0) i m.objects m.xvncs k v.backed)
