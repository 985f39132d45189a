-- ===== src/Machines/Races.antt =====
-- Two updates of one column of a machine: at most one of those that expect a version writes.
use happy_server.Common.{
  ℕ, ◌+◌, String, Bool, true, false, some, arith, ◌≡◌, refl, ◌∙◌, eq_refl, Option-cases, Bool-cases,
  inl, inr,
}
use happy_server.Publishing.{Outbound}
use happy_server.Machines.{
  Machine, MachineTable, MachineAnswer, refused, version_mismatch, written, MachineField,
  MachineMoments, find_machine, write_machine, lost_machine_write, finish_machine_update,
  machine_update, machine_update_metadata, machine_update_state, machine_metadata_field,
  machine_daemon_state_field,
}

-- The answer says that the column was written.
abbrev pub says_written : MachineAnswer → Bool
says_written (refused t) = false
says_written (version_mismatch v c) = false
says_written (written v c) = true

abbrev Bumps : MachineField → Type 0
Bumps field =
    (now v : ℕ) (content : String) (a : Machine)
    → (field.version_of (field.assign now v content a) ≡ v + 1)
      × ((field.assign now v content a).account_id ≡ a.account_id)

module _ (field : MachineField) (bumps : Bumps field) (m m' : MachineMoments) (out out' : Outbound)
    (user machine : String) (v : ℕ) where
  lost_unwritten :
      (table : MachineTable) → says_written (lost_machine_write field table user machine) ≡ false
  unfolding lost_machine_write
  lost_unwritten table = elim (Option-cases (find_machine table user machine)) [
    | inl missing ↦ ground arith
    | inr (a, found) ↦ ground arith
  ]

  second_write :
      (now later : ℕ) (table : MachineTable) (first second : String)
      → (write_machine field table now user machine v first).1 ≡ true
      → write_machine field
          (write_machine field table now user machine v first).0
          later
          user
          machine
          v
          second
        ≡ ((write_machine field table now user machine v first).0, false)
  unfolding write_machine find_machine
  second_write now later table first second done = elim (Option-cases (table machine)) [
    | inl missing ↦ ground arith
    | inr (a, found) ↦ ground (arith, eq_refl machine, bumps now v first a)
  ]

  -- An answer that the column was written follows a write that found its row.
  written_after :
      (content : String)
      → says_written (machine_update field m out user machine (some content) (some v)).2 ≡ true
      → ((write_machine field m.when_written m.now user machine v content).1 ≡ true)
        × ((machine_update field m out user machine (some content) (some v)).0
            ≡ (write_machine field m.when_written m.now user machine v content).0)
  unfolding machine_update finish_machine_update
  written_after content said = elim (Option-cases (find_machine m.when_read user machine)) [
    | inl missing ↦ (ground arith, ground arith)
    | inr (a, found) ↦
        elim (Bool-cases (write_machine field m.when_written m.now user machine v content).1) [
          | inl done ↦ (done, ground arith)
          | inr lost ↦
              let quiet = lost_unwritten m.when_read_again in
              (ground (arith, quiet), ground (arith, quiet))
        ]
  ]

  refused_unwritten :
      (content : String)
      → write_machine field m'.when_written m'.now user machine v content ≡ (m'.when_written, false)
      → let (table, out'', answer) =
          machine_update field m' out' user machine (some content) (some v) in
        (table ≡ m'.when_written) × (out'' ≡ out') × (says_written answer ≡ false)
  unfolding machine_update finish_machine_update
  refused_unwritten content stale = elim (Option-cases (find_machine m'.when_read user machine)) [
    | inl missing ↦ (ground arith, ground arith, ground arith)
    | inr (a, found) ↦
        let quiet = lost_unwritten m'.when_read_again in
        (ground (arith, stale), ground (arith, stale), ground (arith, stale, quiet))
  ]

  later_unwritten :
      (a b : String)
      → says_written (machine_update field m out user machine (some a) (some v)).2 ≡ true
      → m'.when_written ≡ (machine_update field m out user machine (some a) (some v)).0
      → let (table, out'', answer) = machine_update field m' out' user machine (some b) (some v) in
        (table ≡ m'.when_written) × (out'' ≡ out') × (says_written answer ≡ false)
  later_unwritten a b said after =
      let (done, stored) = written_after a said in
      refused_unwritten b (rw (after ∙ stored) (second_write m.now m'.now m.when_written a b done))

module _ (m m' : MachineMoments) (out out' : Outbound) (user machine : String) (v : ℕ) where
  -- Of two updates of a machine's metadata, or of its daemon state, by sockets of one account that
  -- expect the same version, at most one writes, whatever each had read before: if the first is
  -- answered as written and the second's write comes next, the second changes no machine, emits
  -- nothing and is not answered as written.
  pub one_machine_update_per_version :
      ((a b : String)
        → says_written (machine_update_metadata m out user machine (some a) (some v)).2 ≡ true
        → m'.when_written ≡ (machine_update_metadata m out user machine (some a) (some v)).0
        → let (table, out'', answer) =
            machine_update_metadata m' out' user machine (some b) (some v) in
          (table ≡ m'.when_written) × (out'' ≡ out') × (says_written answer ≡ false))
      × ((a b : String)
          → says_written (machine_update_state m out user machine (some a) (some v)).2 ≡ true
          → m'.when_written ≡ (machine_update_state m out user machine (some a) (some v)).0
          → let (table, out'', answer) =
              machine_update_state m' out' user machine (some b) (some v) in
            (table ≡ m'.when_written) × (out'' ≡ out') × (says_written answer ≡ false))
  unfolding machine_update_metadata machine_update_state
  one_machine_update_per_version = (
    later_unwritten machine_metadata_field (λ now w content a. (refl, refl)) m m' out out' user
        machine v,
    later_unwritten machine_daemon_state_field (λ now w content a. (refl, refl)) m m' out out' user
        machine v,
  )
