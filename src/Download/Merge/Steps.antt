-- ===== src/Download/Merge/Steps.antt =====
-- Every step of the merge keeps the invariant.
use pan_client.Base.{
  suc, leb, if◌then◌else◌, ap, ◌∙◌, keep, map, ℕ, ◌≡◌, refl, sym, subst, ◌≢◌, inl, inr, Bool, true,
  false, ◌==◌, Option, none, some, List, [], ◌∷◌, ◌++◌, append_assoc, append-nil, All-append, Text,
  take, get_elem?, length, Bool-cases, Option-cases, ==_iff, arith,
}
use pan_client.Download.Merge.{
  Disk, is_active, merged, Task, checking, waiting, Merge, update, complete_task, merge_task,
  check_map, remove_at, receive_task, start_merge, World, Step, completes, looks, receives, stops,
  Reach, here, next,
}
use pan_client.Download.Merge.Order.{
  contents, HasIndex, left_over, left_over-is_active, part_at, part_of, Copied-cases, keep-snoc,
  bytes_of, reads, IsTask, Core, Inv, contents-snoc, take-snoc, map-snoc, HasIndex-append,
  HasIndex-last, get_elem?-lt, HasIndex-remove_at, All-remove_at, All-get,
}

delete_mapped :
    {P : ℕ → Task → Type 0} (f : ℕ → Option Task) (n : ℕ)
    → ((k : ℕ) (t : Task) → f k ≡ some t → P k t)
    → (k : ℕ) (t : Task) → update f n none k ≡ some t
    → P k t
delete_mapped f n h k t e = elim (Bool-cases (k == n)) [
  | inl same ↦ absurd (cc (rw same at e))
  | inr other ↦ h k t (rw other at e)
]

insert_mapped :
    {P : ℕ → Task → Type 0} (f : ℕ → Option Task) (u : Task)
    → ((k : ℕ) (t : Task) → f k ≡ some t → P k t)
    → P u.index u
    → (k : ℕ) (t : Task) → update f u.index (some u) k ≡ some t
    → P k t
insert_mapped {P} f u h p k t e = elim (Bool-cases (k == u.index)) [
  | inl same ↦
      let there : u ≡ t = cc (rw same at e) in
      subst (P k) there (subst (λ j. P j u) (sym ((==_iff k u.index).0 same)) p)
  | inr other ↦ h k t (rw other at e)
]

left_over-if :
    (disk : Disk) (tasks : List Task) (b : Bool) (n : ℕ)
    → left_over disk tasks (if b then merged else checking) n ≡ []
left_over-if disk tasks true n = refl
left_over-if disk tasks false n = refl

module _ (disk : Disk) (tasks : List Task) (output : Text) where
  merge_task-Core :
      (m : Merge) (done : ℕ → Bool) (t : Task)
      → Core disk tasks output m done
      → is_active m.phase ≡ true
      → get_elem? tasks m.next ≡ some t
      → Core disk tasks output (merge_task disk (length tasks) t m) done
        × ((merge_task disk (length tasks) t m).phase ≢ waiting)
  unfolding merge_task
  merge_task-Core m done t c active e =
      let clean : m.output ≡ output ++ c.written.0 =
        c.written.2
        ∙ ap (λ l. output ++ (c.written.0 ++ l))
            (left_over-is_active disk tasks m.phase m.next active)
        ∙ ap (λ l. output ++ l) (append-nil c.written.0) in
      elim (Copied-cases (disk.copy t.temp_filename)) [
        | inl n ↦
            rw (n, merge_task)
              (
                record {
                  mapped = delete_mapped m.task_map m.next c.mapped;
                  notified = c.notified;
                  written = (
                    c.written.0,
                    c.written.1,
                    clean
                        ∙ ap (λ l. output ++ l)
                            (sym (
                              ap (λ l. c.written.0 ++ l) (ap (part_at disk) e ∙ ap part_of n)
                              ∙ append-nil c.written.0)),
                  );
                  files = c.files;
                  complete = λ p. cc;
                  began = λ p. cc;
                  bounded = c.bounded;
                  live = λ p. cc;
                },
                λ p. cc,
              )
        | inr (inl (part, r)) ↦
            rw (r, merge_task)
              (
                record {
                  mapped = delete_mapped m.task_map m.next c.mapped;
                  notified = c.notified;
                  written = (
                    c.written.0,
                    c.written.1,
                    ap (λ o. o ++ part) clean
                        ∙ append_assoc output c.written.0 part
                        ∙ ap (λ l. output ++ (c.written.0 ++ l))
                            (sym (ap (part_at disk) e ∙ ap part_of r)),
                  );
                  files = c.files;
                  complete = λ p. cc;
                  began = λ p. cc;
                  bounded = c.bounded;
                  live = λ p. cc;
                },
                λ p. cc,
              )
        | inr (inr (b, r)) ↦
            let left : left_over disk tasks
                  (if leb (length tasks) (suc m.next) then merged else checking) (suc m.next)
                ≡ [] =
              left_over-if disk tasks (leb (length tasks) (suc m.next)) (suc m.next) in
            rw (r, merge_task)
              (
                record {
                  mapped = delete_mapped m.task_map m.next c.mapped;
                  notified = c.notified;
                  written = (
                    c.written.0 ++ b,
                    rw (take-snoc m.next tasks t e) (
                        contents-snoc (reads disk) (take m.next tasks) t c.written.0 b c.written.1
                          (ap bytes_of r)),
                    ap (λ o. o ++ b) clean
                        ∙ append_assoc output c.written.0 b
                        ∙ ap (λ l. output ++ l)
                            (sym (
                              ap (λ l. (c.written.0 ++ b) ++ l) left
                              ∙ append-nil (c.written.0 ++ b))),
                  );
                  files =
                      ap
                        (λ l. if disk.removes t.temp_filename then l ++ t.temp_filename ∷ [] else l)
                        c.files
                      ∙ sym (
                          ap (λ ts. keep disk.removes (map (λ u. u.temp_filename) ts))
                            (take-snoc m.next tasks t e)
                          ∙ ap (keep disk.removes) (map-snoc (take m.next tasks) t)
                          ∙ keep-snoc disk.removes (map (λ u. u.temp_filename) (take m.next tasks))
                              t.temp_filename);
                  complete = λ p. ground arith;
                  began = λ p. omega arith;
                  bounded = get_elem?-lt tasks m.next t e;
                  live = λ p k le d. ground (arith, c.live active k (omega arith) d);
                },
                λ p. ground arith,
              )
      ]

  check_map-Inv :
      (w : World)
      → Inv disk tasks output w
      → w.merge.phase ≡ checking
      → Inv disk tasks output (record w { merge = check_map disk (length tasks) w.merge })
  unfolding check_map
  check_map-Inv w v h = elim (Option-cases (w.merge.task_map w.merge.next)) [
    | inl n ↦
        rw (n, check_map)
          (record {
            core = record {
              mapped = v.core.mapped;
              notified = v.core.notified;
              written = (
                v.core.written.0,
                v.core.written.1,
                subst
                    (λ p.
                      w.merge.output
                      ≡ output ++ (v.core.written.0 ++ left_over disk tasks p w.merge.next))
                    h v.core.written.2,
              );
              files = v.core.files;
              complete = λ p. cc;
              began = λ p. cc;
              bounded = v.core.bounded;
              live = λ p. v.core.live (rw h refl);
            };
            awake =
                λ p d. absurd (cc (rw n at (v.core.live (rw h refl) w.merge.next (omega arith) d)));
          })
    | inr (t, e) ↦
        rw (e, check_map)
          (let (c, n) =
              merge_task-Core w.merge w.done t v.core (rw h refl)
                (v.core.mapped w.merge.next t e) in
            record { core = c; awake = λ p. absurd (n p) })
  ]

  receive_task-Inv :
      (k : ℕ) (t : Task) (w : World)
      → Inv disk tasks output w
      → w.merge.phase ≡ waiting
      → get_elem? w.merge.notifying k ≡ some t
      → Inv disk tasks output (record w { merge = receive_task disk (length tasks) k t w.merge })
  unfolding receive_task
  receive_task-Inv k t w v h e = elim (Bool-cases (t.index == w.merge.next)) [
    | inl same ↦
        rw (same, receive_task)
          (let (c, n) =
              merge_task-Core rest w.done t rest_core (rw h refl)
                (subst (λ j. get_elem? tasks j ≡ some t) ((==_iff _ _).0 same) its_task) in
            record { core = c; awake = λ p. absurd (n p) })
    | inr other ↦
        rw (other, receive_task)
          (record {
            core = record {
              mapped = insert_mapped w.merge.task_map t v.core.mapped its_task;
              notified = rest_core.notified;
              written = v.core.written;
              files = v.core.files;
              complete = λ p. v.core.complete p;
              began = v.core.began;
              bounded = v.core.bounded;
              live = λ p j le d. ground (arith, v.core.live p j le d);
            };
            awake = λ p d.
                HasIndex-remove_at w.merge.next k t w.merge.notifying e
                  (λ (q : t.index ≡ w.merge.next). ground arith) (v.awake p d);
          })
  ]
    where
      its_task : IsTask disk tasks t
      its_task = All-get (IsTask disk tasks) k t w.merge.notifying v.core.notified e

      rest : Merge
      rest = record w.merge { notifying = remove_at k w.merge.notifying }

      rest_core : Core disk tasks output rest w.done
      rest_core = record {
        mapped = v.core.mapped;
        notified = All-remove_at (IsTask disk tasks) k w.merge.notifying v.core.notified;
        written = v.core.written;
        files = v.core.files;
        complete = v.core.complete;
        began = v.core.began;
        bounded = v.core.bounded;
        live = v.core.live;
      }

  complete_task-Inv :
      (t : Task) (w : World)
      → Inv disk tasks output w
      → get_elem? tasks t.index ≡ some t
      → Inv disk tasks output
          (record { merge = complete_task t w.merge; done = update w.done t.index true })
  unfolding complete_task
  complete_task-Inv t w v e = record {
    core = record {
      mapped = insert_mapped w.merge.task_map t v.core.mapped e;
      notified = All-append (IsTask disk tasks) w.merge.notifying (t ∷ []) v.core.notified (e, tt);
      written = v.core.written;
      files = v.core.files;
      complete = v.core.complete;
      began = v.core.began;
      bounded = v.core.bounded;
      live = λ p k le d. ground (arith, v.core.live p k le);
    };
    awake = λ p d. elim (Bool-cases (w.merge.next == t.index)) [
      | inl same ↦
          subst (λ j. HasIndex j (w.merge.notifying ++ t ∷ [])) (sym ((==_iff _ _).0 same))
            (HasIndex-last t w.merge.notifying)
      | inr other ↦
          HasIndex-append w.merge.next w.merge.notifying (t ∷ []) (v.awake p (rw other at d))
    ];
  }

  pub Step-Inv :
      {w v : World}
      → Step disk (length tasks) tasks w v
      → Inv disk tasks output w
      → Inv disk tasks output v
  Step-Inv (completes t w e d) i = complete_task-Inv t w i e
  Step-Inv (looks w h) i = check_map-Inv w i h
  Step-Inv (receives k t w h e) i = receive_task-Inv k t w i h e
  Step-Inv (stops w active) i = record {
    core = record {
      mapped = i.core.mapped;
      notified = i.core.notified;
      written = (
        i.core.written.0,
        i.core.written.1,
        i.core.written.2
            ∙ ap (λ l. output ++ (i.core.written.0 ++ l))
                (left_over-is_active disk tasks w.merge.phase w.merge.next active),
      );
      files = i.core.files;
      complete = λ p. cc;
      began = λ p. cc;
      bounded = i.core.bounded;
      live = λ p. cc;
    };
    awake = λ p. cc;
  }

  pub start_merge-Inv :
      Inv disk tasks output (record { merge = start_merge output; done = λ k. false })
  unfolding start_merge contents keep
  start_merge-Inv = record {
    core = record {
      mapped = λ k t e. cc;
      notified = tt;
      written = ([], refl, rw append-nil);
      files = refl;
      complete = λ p. cc;
      began = λ p. cc;
      bounded = omega arith;
      live = λ p k le d. cc;
    };
    awake = λ p. cc;
  }

  abbrev pub start : World
  start = record { merge = start_merge output; done = λ k. false }

  pub Reach-Inv : {w : World} → Reach disk (length tasks) tasks start w → Inv disk tasks output w
  Reach-Inv here = start_merge-Inv
  Reach-Inv (next r s) = Step-Inv s (Reach-Inv r)
