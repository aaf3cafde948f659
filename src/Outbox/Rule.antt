-- ===== src/Outbox/Rule.antt =====
-- One rule for every invariant of the outbox: what each locked section keeps, a whole drain keeps,
-- whatever the bus answers and whatever other goroutines do in between.
use fluxrig.Prelude.{ℕ, zero, suc, Bool, true, false, not, List, [], ◌∷◌, ◌&&◌, arith, Bytes, ◌+◌}
use fluxrig.Outbox.{Item, Outbox, BusState, set_bus_state, remove, end_drain, up, down}
use fluxrig.Outbox.Drain.{
  Call, apply_call, apply_calls, World, others, Answer, accepted, invalid, refused, after_answer,
  publish_with_retries, run_pass, State, run_drain,
}

-- The locked sections keep `P`.
pub record Keeps (P : Outbox → Type 0) : Type 0 where
  pub call : (c : Call) (o : Outbox) → P o → P (apply_call c o)
  pub state : (st : BusState) (o : Outbox) → P o → P (set_bus_state st o)
  pub removal : (it : Item) (drop : Bool) (o : Outbox) → P o → P (remove it drop o)
  pub ending : (o : Outbox) → P o → P (end_drain o)
  pub clearing : (o : Outbox) → P o → P (record o { again = false; again_loud = false })

module _ (w : World) (P : Outbox → Type 0) (k : Keeps P) where
  calls : (cs : List Call) (o : Outbox) → P o → P (apply_calls cs o)
  unfolding apply_calls
  calls [] o p = p
  calls (c ∷ cs) o p = calls cs (apply_call c o) (k.call c o p)

  turns : (s : State w) → P s.1 → P (others w s).1
  unfolding others
  turns (e, o) p = calls ((w.turn e o).1) o p

  answers : (a : Answer) (s : State w) → P s.1 → P (after_answer w a s).0.1
  unfolding after_answer
  answers accepted (e, o) p = k.state up o p
  answers invalid (e, o) p = k.state up o p
  answers refused (e, o) p = k.state down o p

  tries : (n : ℕ) (it : Item) (s : State w) → P s.1 → P (publish_with_retries w n it s).0.1
  unfolding publish_with_retries
  tries zero it (e, o) p = p
  tries (suc n) it (e, o) p =
      let s1 = others w (e, o) in
      let a = w.send s1.0 it in
      let s2 = others w (a.0, s1.1) in
      let r = after_answer w a.1 s2 in
      ground (arith, turns (e, o) p, turns (a.0, s1.1), answers a.1 s2, tries n it r.0)

  passes :
      (its : List Item) (ordered : Bool) (held : List Bytes) (n : ℕ) (s : State w)
      → P s.1
      → P (run_pass w its ordered held n s).0.1
  unfolding run_pass
  passes [] ordered held n s p = p
  passes (it ∷ its) ordered held n (e, o) p =
      let r = publish_with_retries w (suc o.retries) it (e, o) in
      let s1 = r.0 in
      let s2 = others w s1 in
      ground (
        arith,
        tries (suc o.retries) it (e, o) p,
        turns s1,
        k.removal it false s2.1,
        k.removal it true s2.1,
        passes its ordered held n (e, o) p,
        passes its ordered held n s1,
        passes its ordered (it.subject ∷ held) n s1,
        passes its ordered held (n + 1) (s2.0, remove it false s2.1),
        passes its ordered held (n + 1) (s2.0, remove it true s2.1),
      )

  pub run_drain-keeps :
      (fuel : ℕ) (quiet : Bool) (s : State w) → P s.1 → P (run_drain w fuel quiet s).0.1
  unfolding run_drain
  run_drain-keeps zero quiet s p = p
  run_drain-keeps (suc fuel) quiet (e, o) p =
      let s1 = others w (e, o) in
      let pass = run_pass w s1.1.items s1.1.ordered [] 0 s1 in
      let s2 = pass.0 in
      let s3 = others w s2 in
      let cleared = record s3.1 { again = false; again_loud = false } in
      ground (
        arith,
        turns (e, o) p,
        k.ending s1.1,
        passes s1.1.items s1.1.ordered [] 0 s1,
        turns s2,
        k.ending s3.1,
        k.clearing s3.1,
        run_drain-keeps fuel quiet s2,
        run_drain-keeps fuel (quiet && not s3.1.again_loud) (s3.0, cleared),
      )
