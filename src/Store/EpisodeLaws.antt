-- ===== src/Store/EpisodeLaws.antt =====
-- What is recorded of the head that is blocked (src/store/queue.rs).
use homebased.Base.{
  ℕ, suc, ◌≤◌, ◌≡◌, ◌⊎◌, sym, subst, ap, refl, ◌∙◌, Bool, true, false, List, [], ◌∷◌, find, any,
  filter, length, Option, none, some, Bool-cases, inl, inr, ==_iff, ==_refl, arith, ok, ◌==◌,
}
use homebased.Ids.{MachineId, JobId, Time}
use homebased.Queue.Schedule.Types.{StoredEpisode}
use homebased.Store.Access.{update}
use homebased.Store.Episodes.{
  NoticeRow, stored_time, is_open, episode_of, new_row, blocked_episode, ended, is_of_head,
  start_episode, record_blocked_head,
}

-- How many rows of a machine are open.
abbrev pub open_rows : MachineId → List NoticeRow → ℕ
open_rows machine rows = length (filter (is_open machine) rows)

ended_out :
    (machine : MachineId) (now : Time) (r : NoticeRow) → is_open machine (ended now r) ≡ false
unfolding is_open ended
ended_out machine now r = ground arith

-- An open row is of one machine.
open_apart :
    (machine other : MachineId) (r : NoticeRow)
    → (other == machine) ≡ false
    → is_open machine r ≡ true
    → is_open other r ≡ false
unfolding is_open
open_apart machine other r apart h = ground arith

-- Ending a machine's open rows leaves none open there, and those of every other machine as they are.
update-closed :
    (machine : MachineId) (now : Time) (rows : List NoticeRow)
    → (find (is_open machine) (update (is_open machine) (ended now) rows) ≡ none)
      × (open_rows machine (update (is_open machine) (ended now) rows) ≡ 0)
unfolding update
update-closed machine now [] = (refl, refl)
update-closed machine now (r ∷ rows) =
    let (f, n) = update-closed machine now rows in
    elim (Bool-cases (is_open machine r)) [
      | inl o ↦ rw (o, ended_out machine now r) (f, n)
      | inr c ↦ rw (c, c) (f, n)
    ]

update-open :
    (machine other : MachineId) (now : Time) (rows : List NoticeRow)
    → (other == machine) ≡ false
    → (find (is_open other) (update (is_open machine) (ended now) rows) ≡ find (is_open other) rows)
      × (open_rows other (update (is_open machine) (ended now) rows) ≡ open_rows other rows)
unfolding update
update-open machine other now [] apart = (refl, refl)
update-open machine other now (r ∷ rows) apart =
    let (f, n) = update-open machine other now rows apart in
    elim (Bool-cases (is_open machine r)) [
      | inl o ↦ rw (o, ended_out other now r, open_apart machine other r apart o) (f, n)
      | inr c ↦ elim (Bool-cases (is_open other r)) [
        | inl q ↦ rw (c, q) (refl, ap (λ (k : ℕ). suc k) n)
        | inr q ↦ rw (c, q) (f, n)
      ]
    ]

-- What the answer says of a head: none without one, and else its open episode. The same head keeps its
-- episode; another head starts one, that its thread was not told of.
unfoldable pub Told :
    MachineId
    → Option (JobId × Time)
    → List NoticeRow
    → List NoticeRow
    → Option StoredEpisode
    → Type 0
Told machine none s t answer = answer ≡ none
Told machine (some (job, since)) s t answer =
    (e : StoredEpisode) × (answer ≡ some e)
    × (e.job ≡ job)
    × (((blocked_episode machine s ≡ some e) × (t ≡ s))
        ⊎ ((e.blocked_since ≡ stored_time since)
            × (e.notified ≡ false)
            × ((old : StoredEpisode)
                → blocked_episode machine s ≡ some old
                → (old.job == job) ≡ false)))

pub record Recorded (machine : MachineId) (head : Option (JobId × Time)) (s t : List NoticeRow)
    (answer : Option StoredEpisode) : Type 0 where
  pub shown : blocked_episode machine t ≡ answer
  pub elsewhere :
      (other : MachineId)
      → (other == machine) ≡ false
      → blocked_episode other t ≡ blocked_episode other s
  pub single : (other : MachineId) → open_rows other s ≤ 1 → open_rows other t ≤ 1
  pub told : Told machine head s t answer

-- The job of a head is one of the queue's.
unfoldable pub head_known : (JobId → Bool) → Option (JobId × Time) → Bool
head_known known none = true
head_known known (some (job, since)) = known job

no_open_rows :
    (machine : MachineId) (rows : List NoticeRow)
    → find (is_open machine) rows ≡ none
    → any (is_open machine) rows ≡ false
no_open_rows machine [] h = refl
no_open_rows machine (r ∷ rows) h = elim (Bool-cases (is_open machine r)) [
  | inl o ↦ cc (rw o at h)
  | inr c ↦ rw c (no_open_rows machine rows (rw c at h))
]

module _ (machine : MachineId) (now : Time) (s : List NoticeRow) where
  ended_elsewhere :
      (other : MachineId)
      → (other == machine) ≡ false
      → blocked_episode other (update (is_open machine) (ended now) s) ≡ blocked_episode other s
  unfolding blocked_episode
  ended_elsewhere other apart = rw ((update-open machine other now s apart).0, blocked_episode) refl

  ended_single :
      (other : MachineId)
      → open_rows other s ≤ 1
      → open_rows other (update (is_open machine) (ended now) s) ≤ 1
  ended_single other h = elim (Bool-cases (other == machine)) [
    | inl same ↦
        subst (λ (m : MachineId). open_rows m (update (is_open machine) (ended now) s) ≤ 1)
          (sym ((==_iff other machine).0 same)) (rw ((update-closed machine now s).1) (omega arith))
    | inr apart ↦ rw ((update-open machine other now s apart).1) h
  ]

module _ (machine : MachineId) (job : JobId) (since : Time) (u : List NoticeRow) where
  row_open : is_open machine (new_row machine job since u) ≡ true
  unfolding is_open new_row
  row_open = ground (arith, ==_refl machine)

  row_apart :
      (other : MachineId)
      → (other == machine) ≡ false
      → is_open other (new_row machine job since u) ≡ false
  unfolding is_open new_row
  row_apart other apart = ground (arith, apart)

  row_shown :
      blocked_episode machine (new_row machine job since u ∷ u)
      ≡ some (episode_of (new_row machine job since u))
  unfolding blocked_episode episode_of
  row_shown = rw (row_open, blocked_episode) refl

  row_elsewhere :
      (other : MachineId)
      → (other == machine) ≡ false
      → blocked_episode other (new_row machine job since u ∷ u) ≡ blocked_episode other u
  unfolding blocked_episode
  row_elsewhere other apart = rw (row_apart other apart, blocked_episode) refl

  row_single :
      (other : MachineId)
      → open_rows machine u ≡ 0
      → open_rows other u ≤ 1
      → open_rows other (new_row machine job since u ∷ u) ≤ 1
  row_single other none_open h = elim (Bool-cases (other == machine)) [
    | inl same ↦
        subst (λ (m : MachineId). open_rows m (new_row machine job since u ∷ u) ≤ 1)
          (sym ((==_iff other machine).0 same)) (rw row_open (omega (arith, none_open)))
    | inr apart ↦ rw (row_apart other apart) h
  ]

module _ (known : JobId → Bool) (machine : MachineId) (now : Time) where
  kept :
      (job : JobId) (since : Time) (s : List NoticeRow) (e : StoredEpisode)
      → blocked_episode machine s ≡ some e
      → (e.job == job) ≡ true
      → Recorded machine (some (job, since)) s s (some e)
  unfolding Told
  kept job since s e here same = record {
    shown = here;
    elsewhere = λ other apart. refl;
    single = λ other h. h;
    told = (e, refl, (==_iff e.job job).0 same, inl (here, refl));
  }

  dropped :
      (s : List NoticeRow) → Recorded machine none s (update (is_open machine) (ended now) s) none
  unfolding Told blocked_episode
  dropped s = record {
    shown = rw ((update-closed machine now s).0, blocked_episode) refl;
    elsewhere = ended_elsewhere machine now s;
    single = ended_single machine now s;
    told = refl;
  }

  begun :
      (job : JobId) (since : Time) (s : List NoticeRow)
      → known job ≡ true
      → is_of_head (blocked_episode machine s) (some (job, since)) ≡ false
      → (answer : Option StoredEpisode) × (t : List NoticeRow) × (start_episode known machine
            (some (job, since))
            (update (is_open machine) (ended now) s)
          ≡ ok (answer, t))
        × Recorded machine (some (job, since)) s t answer
  unfolding Told start_episode is_of_head new_row episode_of
  begun job since s k other_head =
      let u = update (is_open machine) (ended now) s in
      let none_open = (update-closed machine now s).0 in
      (
        some (episode_of (new_row machine job since u)),
        new_row machine job since u ∷ u,
        rw (k, no_open_rows machine u none_open, row_shown machine job since u) refl,
        record {
          shown = row_shown machine job since u;
          elsewhere = λ other apart.
              row_elsewhere machine job since u other apart
              ∙ ended_elsewhere machine now s other apart;
          single = λ other h.
              row_single machine job since u other ((update-closed machine now s).1)
                (ended_single machine now s other h);
          told = (
            episode_of (new_row machine job since u),
            refl,
            refl,
            inr (refl, refl, λ old here. (rw (here) at other_head)),
          );
        },
      )

not_of_head : (episode : Option StoredEpisode) → is_of_head episode none ≡ false
unfolding is_of_head
not_of_head none = refl
not_of_head (some episode) = refl

of_head :
    (episode : Option StoredEpisode) (job : JobId) (since : Time)
    → is_of_head episode (some (job, since)) ≡ true
    → (e : StoredEpisode) × (episode ≡ some e) × ((e.job == job) ≡ true)
unfolding is_of_head
of_head none job since h = cc h
of_head (some episode) job since h = (episode, refl, h)

-- The head that is blocked, whose job the queue knows, is always recorded. The answer is the open episode
-- of the machine afterwards, and that of the head: the same head keeps its episode, and another one
-- starts an episode at its own time, whose thread was not told; without a head none is open. The episodes
-- of other machines stay as they are, and no machine gets a second open episode.
pub record_blocked_head-Recorded :
    (known : JobId → Bool) (machine : MachineId) (head : Option (JobId × Time)) (now : Time)
    (s : List NoticeRow)
    → head_known known head ≡ true
    → (answer : Option StoredEpisode) × (t : List NoticeRow) × (record_blocked_head known machine
          head now s
        ≡ ok (answer, t))
      × Recorded machine head s t answer
unfolding record_blocked_head start_episode head_known
record_blocked_head-Recorded known machine none now s h = (
  none,
  update (is_open machine) (ended now) s,
  rw (not_of_head (blocked_episode machine s)) refl,
  dropped known machine now s,
)
record_blocked_head-Recorded known machine (some (job, since)) now s h =
    elim (Bool-cases (is_of_head (blocked_episode machine s) (some (job, since)))) [
      | inl same ↦
          let (e, here, own) = of_head (blocked_episode machine s) job since same in
          (some e, s, rw (same, here) refl, kept known machine now job since s e here own)
      | inr other ↦
          let (answer, t, e, r) = begun known machine now job since s h other in
          (answer, t, rw other e, r)
    ]
