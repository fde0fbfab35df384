-- ===== src/Tests/Executions.antt =====
-- The operations on an execution, and the map of executions, of os/src/bin/kernel/execution, at
-- concrete executions.
use rasperry_pi_os.Prelude.{
  ◌/◌, ◌≡◌, ◌⊎◌, true, false, unreachable, returns, panics, ◌>>=◌, refl, [], ◌∷◌, arith, ltb,
}
use rasperry_pi_os.Memory.Region.{page_size}
use rasperry_pi_os.Execution.{Execution, contains_pa, contains_pa_writeable, unblock, block}
use rasperry_pi_os.Execution.Pages.{count}
use rasperry_pi_os.Execution.Laws.{IsValid, holds, contains_pa-holds, unblocks, unblock-block}

abbrev pub shell : Execution
shell = record {
  writeable_pages = 0 ∷ 131072 ∷ [];
  readable_pages = 65536 ∷ [];
  user_context = 16;
  ttbr0 = 0;
  tcr_el1 = 0;
  token = 1;
  pid = 0;
  pending_messages = [];
}

pub shell-IsValid : IsValid shell
shell-IsValid = record {
  writeable = (((omega arith, tt), (tt, tt)), (refl, (refl, tt)));
  readable = ((tt, tt), (refl, tt));
  small = omega arith;
}

contains_pa-holds_example :
    (contains_pa shell 65540 ≡ ltb 0 (holds shell (65540 / page_size)))
    × (contains_pa_writeable shell 65540 ≡ ltb 0 (count shell.writeable_pages (65540 / page_size)))
contains_pa-holds_example = contains_pa-holds shell 65540 shell-IsValid

unblock-block_example :
    ((shell.token ≡ 1)
      × ((unblocks 3 shell >>= block) ≡ returns (record shell { token = 1 }, false))
      × (block shell ≡ returns (record shell { token = 0 }, true)))
    ⊎ ((shell.token ≡ 0)
        × (unblock shell ≡ returns (record shell { token = 1 }, true))
        × ((unblocks 3 shell >>= unblock) ≡ returns (record shell { token = 2 }, false))
        × (block shell ≡ panics unreachable))
unblock-block_example = unblock-block 2 shell (omega arith)
