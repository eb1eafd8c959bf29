-- ===== src/Examples/Selects.antt =====
-- The theorems on `select`, at concrete worlds.
use sve.Select.Lively.{select-Hushed}
use sve.Select.Shown.{Hushed}
use sve.Kernel.Stuck.{Stuck}
use sve.Base.{
  ℕ, Bool, true, ◌<◌, eqb, minus_one, some_of, if◌then◌else◌, is_none, ◌⊎◌, Option, ◌≡◌, refl,
  false, some, none, pos, negsuc, ◌==◌, arith, ◌||◌,
}
use sve.Kernel.{Log, Reply, World, Kernel, Call, FdSet, FdSets}
use sve.Kernel.Runs.{Returns, Ends, Responsive}
use sve.State.{fd_list_has}
use sve.Select.Application.{finish-isset}
use sve.Select.Watched.{Below, Watched, sniff_binds-Watched}
use sve.Select.{sniff_binds, finish, isset, replied_sets, select}
use sve.Select.Result.{Selected, Rounds, select-Selected}
use sve.Select.Sets.{count_at, Bounded}
use sve.Select.Count.{Reported, finish-count}
use sve.State.Lists.{All}
use sve.Select.Handlers.{Hidden, Fewer}
use sve.Select.Hidden.{finish-Hidden}
use sve.Examples.Kernels.{calm, calm-Answers, calm-Responsive, running, reply}

-- A request on descriptor 4, which is the library's, and a client's message on descriptor 7.
abbrev arrived : FdSet
arrived (pos n) = (pos n == pos 4) || (pos n == pos 7)
arrived (negsuc n) = false

abbrev arrived_sets : FdSets
arrived_sets = record { read_set = some arrived; write_set = none; except_set = none }

arrived-Bounded : Bounded 16 (some arrived)
unfolding isset ◌==◌
arrived-Bounded (pos n) e = ground arith
arrived-Bounded (negsuc n) e = cc

finish-count_example :
    Returns
      (λ (result', sets') w'.
        Reported 16 0 result' sets'
        × (w'.correction ≡ 0)
        × (sets'.write_set ≡ none)
        × (sets'.except_set ≡ none))
      (finish calm (pos 2) arrived_sets running)
unfolding count_at ◌==◌
finish-count_example =
    finish-count calm 16 0 (pos 2) arrived_sets running calm-Responsive
      (record { bounded = arrived-Bounded; number = refl }) refl

finish-Hidden_example :
    Returns
      (λ (_, sets') w'. All (Hidden sets'.read_set) w'.binds × Fewer (some arrived) sets'.read_set)
      (finish calm (pos 2) arrived_sets running)
finish-Hidden_example = finish-Hidden calm (pos 2) arrived_sets running calm-Responsive

finish-isset_example :
    Returns
      (λ (_, sets') v. isset (pos 7) sets'.read_set ≡ isset (pos 7) arrived_sets.read_set)
      (finish calm (pos 2) arrived_sets running)
unfolding ◌==◌ fd_list_has
finish-isset_example =
    finish-isset calm (pos 7) (pos 2) arrived_sets running calm-Responsive (λ log fd. refl)
      (
        record { foreign = record { comfd = refl; readyfd = refl; comfds = refl }; public = refl },
        tt,
      )

-- A system whose select reports these two.
abbrev selecting : Kernel
selecting log (Call.select nfds passed timeout) = record (reply (pos 2)) { sets = arrived_sets }
selecting log call = calm log call

selecting-Responsive : Responsive selecting
selecting-Responsive log (Call.recv fd len flags) e = refl
selecting-Responsive log call e = refl

passed-Reported :
    (readfds write_set except_set : Option FdSet)
    → (others : ℕ) × Reported 16 others (pos 2) (
        replied_sets
          (record { read_set = readfds; write_set = write_set; except_set = except_set })
          arrived_sets)
unfolding replied_sets count_at ◌==◌ isset
passed-Reported none _ _ = (2, record { bounded = λ fd e. cc; number = refl })
passed-Reported (some readfds) _ _ = (0, record { bounded = arrived-Bounded; number = refl })

abbrev no_timeout : Option ℕ
no_timeout = none

select-Selected_example :
    Ends
      (λ (result, sets') v. Selected selecting 16 none result sets' v)
      (λ v. ((is_none no_timeout ≡ true) × Rounds 1 running v) ⊎ Stuck selecting v)
      (select selecting 1 (pos 8) arrived_sets none running)
select-Selected_example =
    select-Selected selecting 16 selecting-Responsive
      (λ log nfds passed timeout _.
        passed-Reported passed.read_set passed.write_set passed.except_set)
      0 (pos 8) arrived_sets none running refl

abbrev ready_to_wait : World
ready_to_wait = record running { max_fds = pos 8 }

arrived-Below : Below arrived (pos 8)
unfolding ◌==◌
arrived-Below (pos n) e = ground arith
arrived-Below (negsuc n) e = cc

sniff_binds-Watched_example :
    Returns
      (λ passed v. Watched arrived ready_to_wait passed v)
      (sniff_binds calm (some arrived) ready_to_wait)
sniff_binds-Watched_example = sniff_binds-Watched calm arrived ready_to_wait arrived-Below

abbrev is_select : Call → Bool
is_select (Call.select nfds passed timeout) = true
is_select call = false

-- One member.
abbrev only : ℕ → FdSet
only m (pos n) = eqb n m
only m (negsuc n) = false

abbrev only_sets : ℕ → FdSets
only_sets m = record { read_set = some (only m); write_set = none; except_set = none }

-- The first select finds a request on 4, the ones behind it a client's message on 7; without a read set
-- it fails.
abbrev slow_reply : Bool → Option FdSet → Reply
slow_reply again none = reply minus_one
slow_reply again (some readfds) = record (reply (pos 1)) {
  sets = only_sets (if again then 7 else 4);
}

abbrev slow : Kernel
slow log (Call.select nfds passed timeout) = slow_reply (some_of is_select log) passed.read_set
slow log call = calm log call

slow-Answers : (log : Log) (call : Call) → (slow log call).returns ≡ true
slow-Answers log (Call.select nfds passed timeout) =
    answered (some_of is_select log) passed.read_set
  where
    answered : (b : Bool) (o : Option FdSet) → (slow_reply b o).returns ≡ true
    answered b none = refl
    answered b (some readfds) = refl
slow-Answers log call = calm-Answers log call

only-Bounded : (m : ℕ) → m < 16 → Bounded 16 (some (only m))
unfolding isset
only-Bounded m small (pos n) e = ground arith
only-Bounded m small (negsuc n) e = cc

only-Reported :
    (b : Bool) (readfds write_set except_set : Option FdSet)
    → ((slow_reply b readfds).value == minus_one) ≡ false
    → (others : ℕ) × Reported 16 others (slow_reply b readfds).value (
        replied_sets
          (record { read_set = readfds; write_set = write_set; except_set = except_set })
          (slow_reply b readfds).sets)
unfolding replied_sets count_at ◌==◌ isset
only-Reported b none _ _ failed = cc
only-Reported true (some readfds) _ _ fine =
    (0, record { bounded = only-Bounded 7 (omega arith); number = refl })
only-Reported false (some readfds) _ _ fine =
    (0, record { bounded = only-Bounded 4 (omega arith); number = refl })

select-Hushed_example :
    Ends
      (λ (result, sets') v. Selected slow 16 none result sets' v)
      (λ v. ((is_none no_timeout ≡ true) × Hushed slow (pos 7) 2 running v) ⊎ Stuck slow v)
      (select slow 2 (pos 8) arrived_sets none running)
unfolding ◌==◌ fd_list_has
select-Hushed_example =
    select-Hushed slow 16 (pos 7) (λ log call _. slow-Answers log call)
      (λ log nfds passed timeout fine.
        only-Reported (some_of is_select log) passed.read_set passed.write_set passed.except_set
          fine)
      (λ log fd. refl) 1 (pos 8) arrived_sets none running refl
      (
        record { foreign = record { comfd = refl; readyfd = refl; comfds = refl }; public = refl },
        tt,
      )
