-- ===== src/Running/Halting.antt =====
-- indexer/poller.ts: the loop that meets a discontinuity, and the next start.
use ourdao_backend.Common.{
  ℕ, String, Bool, true, Option, none, some, List, [], ◌∷◌, ltb, ◌≡◌, refl, ap, subst, err, if_elim,
  All,
}
use ourdao_backend.Store.{ReorgHalt, Store}
use ourdao_backend.Polling.{PollError, fetch_once}
use ourdao_backend.Startup.{record_reorg_halt, start_indexer, reorg_halted}
use ourdao_backend.Startup.Halts.{halt-refuses}
use ourdao_backend.Running.{
  RunConfig, RunState, Visit, Round, Ended, is_discontinuity, halt, unless_halted, after_poll,
  poll_contract, poll_contracts, run_rounds, due_at,
}

-- In this round, the record of a discontinuity can be written.
abbrev pub RecordsHalts : Round → Type 0
RecordsHalts round = (id : String) → (round.visit id).records_halt ≡ true

module _ (config : RunConfig) (detail : PollError → String) where
  -- A loop that ended with a discontinuity has recorded it last.
  abbrev Records : Ended → Type 0
  Records (ended, s) =
      (contract_id : String) (e : PollError)
      → ended ≡ some (contract_id, e)
      → (is_discontinuity e ≡ true)
        × ((st : Store) × (s.store ≡ record_reorg_halt true contract_id (detail e) st))

  after_poll-Records :
      (contract_id : String) (finished_at : ℕ) (thrown : Option PollError) (s : RunState)
      → Records (after_poll config detail true contract_id finished_at thrown s)
  unfolding after_poll halt
  after_poll-Records contract_id finished_at none s = λ id e h. absurd (cc h)
  after_poll-Records contract_id finished_at (some thrown) s =
      if_elim Records (is_discontinuity thrown)
        (λ g id e h.
          let pair : ◌≡◌ {A = String × PollError} (contract_id, thrown) (id, e) = cc in
          let same : thrown ≡ e = cc h in
          (
            subst (λ x. is_discontinuity x ≡ true) same g,
            (
              s.store,
              ap (λ (p : String × PollError). record_reorg_halt true p.0 (detail p.1) s.store) pair,
            ),
          ))
        (λ g id e h. absurd (cc h))

  unless_halted-Records :
      (next : RunState → Ended) (r : Ended)
      → ((s : RunState) → Records (next s))
      → Records r
      → Records (unless_halted next r)
  unfolding unless_halted
  unless_halted-Records next (some halted, s) all first = first
  unless_halted-Records next (none, s) all first = all s

  poll_contract-Records :
      (contract_id : String) (visit : Visit) (s : RunState)
      → visit.records_halt ≡ true
      → Records (poll_contract config detail contract_id visit s)
  unfolding poll_contract
  poll_contract-Records contract_id visit s written =
      let (thrown, states, st) =
        fetch_once config.poll contract_id visit.outside s.states s.store in
      rw written (
        after_poll-Records contract_id visit.finished_at thrown
          (record s { states = states; store = st }))

  poll_contracts-Records :
      (round : Round) (ids : List String) (s : RunState)
      → RecordsHalts round
      → Records (poll_contracts config detail round ids s)
  unfolding poll_contracts
  poll_contracts-Records round [] s written = λ id e h. absurd (cc h)
  poll_contracts-Records round (contract_id ∷ rest) s written =
      if_elim Records (round.visit contract_id).aborted (λ g id e h. absurd (cc h))
        (λ g.
          if_elim Records (ltb round.now (due_at contract_id s))
            (λ k. poll_contracts-Records round rest s written)
            (λ k.
              unless_halted-Records (poll_contracts config detail round rest) _
                (λ t. poll_contracts-Records round rest t written)
                (poll_contract-Records contract_id (round.visit contract_id) s
                  (written contract_id))))

  run_rounds-Records :
      (ids : List String) (rounds : List Round) (s : RunState)
      → All RecordsHalts rounds
      → Records (run_rounds config detail ids rounds s)
  unfolding run_rounds
  run_rounds-Records ids [] s written = λ id e h. absurd (cc h)
  run_rounds-Records ids (round ∷ rounds) s written =
      if_elim Records round.aborted (λ g id e h. absurd (cc h))
        (λ g.
          unless_halted-Records (run_rounds config detail ids rounds) _
            (λ t. run_rounds-Records ids rounds t written.1)
            (poll_contracts-Records round ids s written.0))

  -- Where the record of a discontinuity can be written in each of the rounds, a loop that ends with an
  -- error, whatever the rounds before, ends with a discontinuity; and the next start on the database
  -- that it leaves is refused, with a record of the contract and of the error, and changes nothing.
  pub run_rounds-StaysHalted :
      (ids : List String) (rounds : List Round) (s : RunState) (configured : List String)
      (resets lock : Bool) {contract_id : String} {e : PollError} {s' : RunState}
      → All RecordsHalts rounds
      → run_rounds config detail ids rounds s ≡ (some (contract_id, e), s')
      → (is_discontinuity e ≡ true)
        × ((h : ReorgHalt) × (h.contract_id ≡ contract_id)
            × (h.detail ≡ detail e)
            × (start_indexer configured resets lock s'.store ≡ (err (reorg_halted h), s'.store)))
  run_rounds-StaysHalted ids rounds s configured resets lock {contract_id} {e} {s'} written ended =
      let records : Records (some (contract_id, e), s') =
        subst Records ended (run_rounds-Records ids rounds s written) in
      let (reorg, (st, recorded)) = records contract_id e refl in
      let ((h, (who, what), refused), _) =
        halt-refuses contract_id (detail e) "" configured resets lock st in
      rw recorded (reorg, (h, who, what, refused))
