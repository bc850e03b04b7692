-- ===== src/Download/Merge/Schedules.antt =====
-- What holds of the merge under every interleaving with the workers.
use pan_client.Base.{
  keep, ap, ◌∙◌, append-nil, take-all, ℕ, suc, ◌≡◌, refl, subst, ◌≢◌, inl, inr, true, some, List,
  [], ◌∷◌, ◌++◌, map, Text, take, get_elem?, length, arith,
}
use pan_client.Download.Merge.{Disk, Task, waiting, merged, World, Reach}
use pan_client.Download.Merge.Order.{reads, left_over, contents, HasIndex}
use pan_client.Download.Merge.Steps.{start, Reach-Inv}

module _ (disk : Disk) (tasks : List Task) (output : Text) {w : World}
    (reach : Reach disk (length tasks) tasks (start disk tasks output) w) where
  -- At every moment the output file is what it was, followed by the chunks before the next index in
  -- the order of their indices and, where the merge has failed, by the part of the next chunk that was
  -- copied; and of the temporary files of the chunks before the next index, and of no others, those that
  -- can be removed are removed.
  pub Reach-prefix :
      (bytes : Text) × (contents (reads disk) (take w.merge.next tasks) ≡ some bytes)
      × (w.merge.output ≡ output ++ (bytes ++ left_over disk tasks w.merge.phase w.merge.next))
      × (w.merge.removed ≡ keep disk.removes (map (λ t. t.temp_filename) (take w.merge.next tasks)))
  Reach-prefix =
      let c = (Reach-Inv disk tasks output reach).core in
      (c.written.0, c.written.1, c.written.2, c.files)

  -- When the merge ends by its loop, the output file is what it was, followed by all the chunks in
  -- the order of their indices, in whatever order the workers completed them.
  pub Reach-merged :
      w.merge.phase ≡ merged
      → (bytes : Text) × (contents (reads disk) tasks ≡ some bytes)
        × (w.merge.output ≡ output ++ bytes)
  Reach-merged p =
      let c = (Reach-Inv disk tasks output reach).core in
      (
        c.written.0,
        subst (λ ts. contents (reads disk) ts ≡ some c.written.0) (take-all _ tasks (c.complete p))
            c.written.1,
        subst (λ p. w.merge.output ≡ output ++ (c.written.0 ++ left_over disk tasks p w.merge.next))
              p c.written.2
            ∙ ap (λ bs. output ++ bs) (append-nil c.written.0),
      )

  -- While the merge waits for a task that is done, one of the goroutines that wait to send brings
  -- that task: no completion is missed.
  pub Reach-awake :
      w.merge.phase ≡ waiting
      → w.done w.merge.next ≡ true
      → (k : ℕ) × (t : Task) × (get_elem? w.merge.notifying k ≡ some t) × (t.index ≡ w.merge.next)
  Reach-awake p d = position w.merge.notifying ((Reach-Inv disk tasks output reach).awake p d)
    where
      position :
          (ts : List Task)
          → HasIndex w.merge.next ts
          → (k : ℕ) × (t : Task) × (get_elem? ts k ≡ some t) × (t.index ≡ w.merge.next)
      position [] h = absurd h
      position (t ∷ ts) (inl e) = (0, t, refl, e)
      position (t ∷ ts) (inr h) = let (k, u, e, i) = position ts h in (suc k, u, e, i)

-- With no tasks the merge never ends by its loop, under no interleaving: it waits for a task 0 that
-- nobody sends.
pub Reach-no_tasks :
    (disk : Disk) (output : Text) {w : World}
    → Reach disk 0 [] (start disk [] output) w
    → w.merge.phase ≢ merged
Reach-no_tasks disk output reach p =
    let c = (Reach-Inv disk [] output reach).core in absurd (omega (arith, c.began p, c.bounded))
