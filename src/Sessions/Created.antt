-- ===== src/Sessions/Created.antt =====
-- XvncManager::createSession over the constructor of Xvnc: how a controller finds the new session.
use vncmanager.Base.{
  ℕ, ◌+◌, ◌<◌, ◌≡◌, refl, ap, ◌∙◌, arith, Bool, not, none, some, List, [], ◌∷◌, length, ltb,
  contains, if◌then◌else◌, false, Result, ok, err, Error, path_too_long, check, when, Post,
  Post-bind,
}
use mathlib.Core.Path.{subst}
use vncmanager.Sessions.Xvnc.{Xvnc, started}
use vncmanager.Sessions.DisplayNumber.{
  decimal, int_limit, read_display_number, read_display_number-decimal,
}
use vncmanager.Sessions.Manager.{
  XvncManager, Spawn, spawned, not_spawned, insert_id, create_session, find_display,
  get_session_by_display_number,
}
use vncmanager.Sessions.Invariant.{IsConsistent, Below, not_contained}
use vncmanager.Sessions.Start.{
  Host, XvncOptions, Answers, close_fd, need, need_fd, sun_path_size, socket_path, auth_path,
  numbered, StartedXvnc, with_fd, read_display, spawn, execute, generate_xauthority_file, construct,
}

-- What `createSession` meets.
abbrev pub spawn_of : Result Host StartedXvnc → Spawn
spawn_of (ok x t) = spawned x.pid x.display_number
spawn_of (err e t) = not_spawned

abbrev Anything : {A : Type 0} → A → Host → Type 0
Anything a t = Unit

abbrev AnyError : Error → Host → Type 0
AnyError e t = Unit

ends : {A : Type 0} (r : Result Host A) → Post Anything AnyError r
ends (ok a t) = tt
ends (err e t) = tt

module _ (a : Answers) (n : ℕ) (rest : List ℕ) (reported : a.displayfd ≡ decimal n (10 ∷ rest))
    (fits : n < int_limit) where
  abbrev Reads : ℕ × ℕ × ℕ → Host → Type 0
  Reads (pid, k, writing) t = k ≡ n

  read_display-number : (fd : ℕ) (t : Host) → Post (λ k _. k ≡ n) AnyError (read_display fd a t)
  read_display-number fd t =
      go (read_display_number 0 a.displayfd)
        (ap (read_display_number 0) reported ∙ read_display_number-decimal n rest fits)
    where
      go :
          (r : Result (List ℕ) ℕ)
          → r ≡ ok n rest
          → Post
              (λ k _. k ≡ n)
              AnyError
              (elim r [ ok k q ↦ ok k (close_fd fd t) | err e q ↦ err e t ])
      go (ok k q) e = cc e
      go (err e q) h = tt

  execute-number : (path : List ℕ) (t : Host) → Post Reads AnyError (execute a path t)
  unfolding execute
  execute-number path t = Post-bind Anything Reads AnyError (need a.unlink) _ t (ends _) (λ _ u _.
      Post-bind Anything Reads AnyError (need_fd a.socket) _ (record u { sun_path = path }) (ends _)
        (λ fd v _.
          Post-bind Anything Reads AnyError (with_fd fd (spawn a)) _ v (ends _)
            (λ (pid, reading, writing) w _.
              Post-bind (λ k _. k ≡ n) Reads AnyError (read_display reading a) _ w
                (read_display-number reading w) (λ k x h. h))))

  construct-number :
      (o : XvncOptions) (id : ℕ) (query : Bool) (s : Host)
      → Post (λ x _. x.display_number ≡ n) AnyError (construct o a id query s)
  unfolding construct
  construct-number o id query s =
      Post-bind Anything Numbered AnyError (need (a.mkdir o.rundir)) _ s (ends _) (λ _ t _.
        Post-bind Anything Numbered AnyError (need (a.mkdir (socket_path o))) _ t (ends _) (λ _ u _.
          Post-bind Anything Numbered AnyError
            (check (ltb (length (numbered (socket_path o) id)) sun_path_size) path_too_long) _ u
            (ends _)
            (λ _ v _.
              Post-bind Anything Numbered AnyError (when (not query) (need (a.mkdir (auth_path o))))
                _ v (ends _)
                (λ _ w _.
                  Post-bind Reads Numbered AnyError (execute a (numbered (socket_path o) id)) _ w
                    (execute-number _ w)
                    (λ (pid, k, writing) x h.
                      Post-bind Anything Numbered AnyError
                        (when (not query) (
                          generate_xauthority_file o a
                            (if query then [] else numbered (auth_path o) id) k))
                        _ x (ends _) (λ _ y _. h))))))
    where
      Numbered : StartedXvnc → Host → Type 0
      Numbered x t = x.display_number ≡ n

find-inserted :
    (n : ℕ) (x : Xvnc) (xs : List Xvnc) (js : List ℕ)
    → Below x.id js
    → x.display_number ≡ n
    → find_display n xs js ≡ none
    → find_display n (x ∷ xs) (insert_id x.id js) ≡ some x.id
find-inserted n x xs [] b e h = ground arith
find-inserted n x xs (j ∷ js) b e h = ground (arith, find-inserted n x xs js)

-- A session of a consistent list whose Xvnc is constructed and reports a number in decimal, which no
-- other session has and which fits an `int`: a controller that asks for this number finds it.
pub create_session-finds :
    (o : XvncOptions) (a : Answers) (query : Bool) (s t : Host) (m : XvncManager) (x : StartedXvnc)
    (n : ℕ) (rest : List ℕ)
    → IsConsistent m
    → construct o a m.next_id query s ≡ ok x t
    → a.displayfd ≡ decimal n (10 ∷ rest)
    → n < int_limit
    → get_session_by_display_number n m ≡ none
    → (m' : XvncManager) × (create_session (spawn_of (construct o a m.next_id query s)) m
        ≡ ok m.next_id m')
      × (get_session_by_display_number n m' ≡ some m.next_id)
unfolding create_session get_session_by_display_number
create_session-finds o a query s t m x n rest v e reported fits unknown =
    let number : x.display_number ≡ n =
      subst (Post (λ y _. y.display_number ≡ n) AnyError) e
        (construct-number a n rest reported fits o m.next_id query s) in
    let new : contains m.xvncs m.next_id ≡ false = not_contained m.next_id m.xvncs v.below in
    (
      record {
        objects = started m.next_id x.pid x.display_number ∷ m.objects;
        xvncs = insert_id m.next_id m.xvncs;
        next_id = m.next_id + 1;
        session_list_version = m.session_list_version;
      },
      ap (λ r. create_session (spawn_of r) m) e ∙ rw new refl,
      find-inserted n (started m.next_id x.pid x.display_number) m.objects m.xvncs v.below number
          unknown,
    )
