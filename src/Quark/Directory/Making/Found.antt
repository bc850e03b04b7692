-- ===== src/Quark/Directory/Making/Found.antt =====
-- A directory that `Mkdir` makes is found on the server, part by part.
use pan_client.Base.{
  ℕ, suc, ◌*◌, ◌-◌, ◌≤◌, ◌<◌, ◌≡◌, refl, sym, subst, ap, ◌∙◌, inl, inr, false, not, if◌then◌else◌,
  List, [], ◌∷◌, Text, codes, is_empty, contains, Result, ok, err, take, drop, length, half64,
  Bool-cases,
}
use pan_client.Errors.{GoError, only_error}
use pan_client.Cache.{GroupDo, del}
use pan_client.Drive.Listings.{cache_key}
use pan_client.Drive.{PanObj, Call, ◌>>=◌, bind, bind-ok, return, fail, on_error}
use pan_client.Http.{world}
use pan_client.Quark.{File, Server, State}
use pan_client.Quark.Replies.{return_by_status, fun_return_by_success, create_directory}
use pan_client.Quark.Pages.{page_size, file_sort}
use pan_client.Quark.Pages.Complete.{pages_lem}
use pan_client.Quark.Directory.{del_dir}
use pan_client.Quark.Directory.Making.{
  find_dir, find_child_dir_id, create_attempts, create_waits, make_part, mkdir_parts, get_msg,
}

-- Down from a directory by the names.
abbrev pub follow : (Text → List File) → Text → List Text → Text
follow kids id [] = id
follow kids id (name ∷ names) = follow kids (find_dir name (kids id)) names

module _ {W : Type 0} (kids : Text → W → List File) where
  -- Every directory that was found is found as before.
  abbrev pub Grows : W → W → Type 0
  Grows w u =
      (id name : Text)
      → is_empty (find_dir name (kids id w)) ≡ false
      → find_dir name (kids id u) ≡ find_dir name (kids id w)

  abbrev pub IsSame : W → W → Type 0
  IsSame w u = (id : Text) → kids id u ≡ kids id w

  Grows-IsSame : (w u : W) → IsSame w u → Grows w u
  Grows-IsSame w u same id name there = ap (λ fs. find_dir name fs) (same id)

  Grows-trans : (w u v : W) → Grows w u → Grows u v → Grows w v
  Grows-trans w u v first next id name there =
      next id name (rw (first id name there) there) ∙ first id name there

  -- A directory of this name is on the server, with this id.
  abbrev pub IsThere : Text → Text → Text → W → Type 0
  IsThere id name fid w = (find_dir name (kids id w) ≡ fid) × (is_empty fid ≡ false)

  abbrev pub Created : {D : Type 0} → Text → Text → W → Result (GoError D) Text → W → Type 0
  Created id name w (ok fid) u = IsThere id name fid u × Grows w u
  Created id name w (err e) u = Grows w u

  -- How the loop over the parts ends: with the id to which the parts lead, or with an error.
  abbrev pub Leads :
      {D : Type 0} → Text → List Text → W → Result (GoError D) (Text × Text) → W → Type 0
  Leads id names w (ok (fid, last)) u = (follow (λ j. kids j u) id names ≡ fid) × Grows w u
  Leads id names w (err e) u = Grows w u

module _ {W D : Type 0} (server : Server W D) (group_do : GroupDo (List PanObj) W (GoError D))
    (kids : Text → W → List File) (rounds : ℕ)
    (few : (id : Text) (w : W)
      → (length (kids id w) < half64 - 200) × (length (kids id w) ≤ rounds * page_size))
    (lists : (id : Text) (k : ℕ) (w : W)
      → let answer = server.get_file_sort id (suc k) page_size w in
        (return_by_status answer.0
          ≡ ok (take page_size (drop (k * page_size) (kids id w)), length (kids id w)))
        × IsSame kids w answer.1)
    (creates : (name id : Text) (w : W)
      → let answer = server.post_file name id w in
        Created kids id name w (fun_return_by_success answer.0) answer.1)
    (sleeps : (ms : ℕ) (w : W) → IsSame kids w (server.sleep ms w)) where
  Made : Text → Text → W → Result (GoError D) Text × State W → Type 0
  Made id name w r = Created kids id name w r.0 r.1.1

  find_child-kids :
      (id name : Text) (s : State W)
      → let r = find_child_dir_id server group_do (suc rounds) id name s in
        (r.0 ≡ ok (find_dir name (kids id s.1))) × IsSame kids s.1 r.1.1
  unfolding find_child_dir_id file_sort
  find_child-kids id name s =
      let r = file_sort server (suc rounds) id s in
      let read =
        pages_lem
          (λ page t. (
            return_by_status (server.get_file_sort id page page_size t.1).0,
            (t.0, (server.get_file_sort id page page_size t.1).1),
          ))
          (kids id s.1) (λ (t : State W). IsSame kids s.1 t.1) ((few id s.1).0)
          (λ k t q. (
            subst
                (λ fs.
                  return_by_status (server.get_file_sort id (suc k) page_size t.1).0
                  ≡ ok (take page_size (drop (k * page_size) fs), length fs))
                (q id) ((lists id k t.1).0),
            λ j. (lists id k t.1).1 j ∙ q j,
          ))
          rounds s (λ j. refl) ((few id s.1).1) in
      let made =
        bind-ok {S = State W} (λ files. return (find_dir name files)) r (kids id s.1) (read.0) in
      subst
        (λ (q : Result (GoError D) Text × State W).
          ((on_error (λ e. return []) q).0 ≡ ok (find_dir name (kids id s.1)))
          × IsSame kids s.1 (on_error (λ e. return []) q).1.1)
        (sym made) (refl, read.1)

  on_error-Made :
      (id name : Text) (w : W) (f : GoError D → Call (State W) D Text)
      (r : Result (GoError D) Text × State W)
      → Made id name w r
      → ((e : GoError D) (s : State W) → Grows kids w s.1 → Made id name w (f e s))
      → Made id name w (on_error f r)
  unfolding Made
  on_error-Made id name w f (ok fid, s) made h = made
  on_error-Made id name w f (err e, s) grown h = h e s grown

  Created-after :
      (id name : Text) (w u : W) (r : Result (GoError D) Text) (v : W)
      → Grows kids w u
      → Created kids id name u r v
      → Created kids id name w r v
  Created-after id name w u (ok fid) v grown made = (made.0, Grows-trans kids w u v grown made.1)
  Created-after id name w u (err e) v grown made = Grows-trans kids w u v grown made

  create_attempts-Made :
      (waits : List ℕ) (id name : Text) (s : State W)
      → Made id name s.1 (create_attempts server group_do (suc rounds) waits name id s)
  unfolding create_attempts create_directory Made
  create_attempts-Made [] id name s = creates name id s.1
  create_attempts-Made (wait ∷ waits) id name s =
      on_error-Made id name s.1
        (λ e.
          if contains (get_msg e) (codes "file is doloading")
          then world (server.sleep wait)
              (create_attempts server group_do (suc rounds) waits name id)
          else fail e)
        (create_directory server name id s) (creates name id s.1)
        (λ e t grown. elim (Bool-cases (contains (get_msg e) (codes "file is doloading"))) [
          | inr other_error ↦ rw other_error grown
          | inl busy ↦
              let slept = server.sleep wait t.1 in
              let again = create_attempts server group_do (suc rounds) waits name id (t.0, slept) in
              let later =
                Grows-trans kids s.1 t.1 slept grown
                  (Grows-IsSame kids t.1 slept (sleeps wait t.1)) in
              rw busy (
                Created-after id name s.1 slept again.0 again.1.1 later
                  (create_attempts-Made waits id name (t.0, slept)))
        ])

  -- A part that is looked up again after an error.
  lookup-Made :
      (id name : Text) (w : W) (e : GoError D) (s : State W)
      → Grows kids w s.1
      → Made id name w (
          (find_child_dir_id server group_do (suc rounds) id name >>= λ fid.
          if not (is_empty fid) then return fid else fail (only_error e))
            s)
  unfolding Made
  lookup-Made id name w e s grown =
      let r = find_child_dir_id server group_do (suc rounds) id name s in
      let found = find_child-kids id name s in
      let there = find_dir name (kids id s.1) in
      let later = Grows-trans kids w s.1 r.1.1 grown (Grows-IsSame kids s.1 r.1.1 found.1) in
      let go : Text → Call (State W) D Text =
        λ fid. if not (is_empty fid) then return fid else fail (only_error e) in
      subst (λ (q : Result (GoError D) Text × State W). Created kids id name w q.0 q.1.1)
        (sym (bind-ok go r there (found.0)))
        (elim (Bool-cases (is_empty there)) [
          | inl missing ↦ rw missing later
          | inr stands ↦ rw stands ((ap (λ fs. find_dir name fs) (found.1 id), stands), later)
        ])

  make_part-Made :
      (id name : Text) (s : State W)
      → Made id name s.1 (make_part server group_do (suc rounds) id name s)
  unfolding make_part
  make_part-Made id name s =
      on_error-Made id name s.1
        (λ e. del_dir id (
          find_child_dir_id server group_do (suc rounds) id name >>= λ fid.
          if not (is_empty fid) then return fid else fail (only_error e)))
        (create_attempts server group_do (suc rounds) create_waits name id s)
        (create_attempts-Made create_waits id name s)
        (λ e t grown. lookup-Made id name s.1 e (del (cache_key id) t.0, t.1) grown)

  -- A part that is there, or is made.
  step-Made :
      (id name : Text) (w : W) (s : State W)
      → IsSame kids w s.1
      → let there = find_dir name (kids id w) in
        Made id name w (
          (if not (is_empty there)
              then return there
              else make_part server group_do (suc rounds) id name)
            s)
  unfolding Made
  step-Made id name w s same =
      let there = find_dir name (kids id w) in
      let before = Grows-IsSame kids w s.1 same in
      let r = make_part server group_do (suc rounds) id name s in
      elim (Bool-cases (is_empty there)) [
        | inl missing ↦
            rw missing (Created-after id name w s.1 r.0 r.1.1 before (make_part-Made id name s))
        | inr stands ↦ rw stands ((ap (λ fs. find_dir name fs) (same id), stands), before)
      ]

  Leads-after :
      (id name fid : Text) (names : List Text) (w u : W) (r : Result (GoError D) (Text × Text))
      (v : W)
      → IsThere kids id name fid u
      → Grows kids w u
      → Leads kids fid names u r v
      → Leads kids id (name ∷ names) w r v
  Leads-after id name fid names w u (ok (last_id, last)) v there grown (leads, later) =
      let stays : find_dir name (kids id v) ≡ fid =
        later id name (rw (there.0) (there.1)) ∙ there.0 in
      (rw stays leads, Grows-trans kids w u v grown later)
  Leads-after id name fid names w u (err e) v there grown later = Grows-trans kids w u v grown later

  rest-Leads :
      (id name : Text) (names : List Text) (w : W) (go : Text → Call (State W) D (Text × Text))
      (r : Result (GoError D) Text × State W)
      → Made id name w r
      → ((fid : Text) (t : State W) → Leads kids fid names t.1 (go fid t).0 (go fid t).1.1)
      → Leads kids id (name ∷ names) w (bind go r).0 (bind go r).1.1
  unfolding Made
  rest-Leads id name names w go (err e, t) grown h = grown
  rest-Leads id name names w go (ok fid, t) (there, grown) h =
      Leads-after id name fid names w t.1 (go fid t).0 (go fid t).1.1 there grown (h fid t)

  -- The loop over the parts of a path, on a server that lists what a directory has, creates what it says it
  -- created, and of which no directory that was found is lost; with fewer files in each directory than
  -- the pages that are read hold. If the loop succeeds, the parts lead on the server from the directory
  -- it began in to the id that it gives; and every directory that was found before, also after an error,
  -- is found under the id that it had.
  pub mkdir_parts_lem :
      (names : List Text) (id last : Text) (s : State W)
      → let r = mkdir_parts server group_do (suc rounds) id last names s in
        Leads kids id names s.1 r.0 r.1.1
  unfolding mkdir_parts
  mkdir_parts_lem [] id last s = (refl, λ j name there. refl)
  mkdir_parts_lem (name ∷ names) id last s =
      let found = find_child-kids id name s in
      let r = find_child_dir_id server group_do (suc rounds) id name s in
      let there = find_dir name (kids id s.1) in
      let go : Text → Call (State W) D (Text × Text) =
        λ fid. mkdir_parts server group_do (suc rounds) fid name names in
      let step : Text → Call (State W) D (Text × Text) = λ fid.
        (if not (is_empty fid) then return fid else make_part server group_do (suc rounds) id name)
        >>= go in
      subst
        (λ (q : Result (GoError D) (Text × Text) × State W).
          Leads kids id (name ∷ names) s.1 q.0 q.1.1)
        (sym (bind-ok step r there (found.0)))
        (rest-Leads id name names s.1 go
          ((if not (is_empty there)
              then return there
              else make_part server group_do (suc rounds) id name)
            r.1)
          (step-Made id name s.1 r.1 found.1) (λ fid t. mkdir_parts_lem names fid name t))
