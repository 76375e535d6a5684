-- ===== src/Mongodb/ReplConf/Fits.antt =====
-- The label values of ReplConf: each export has as many as the labels.
use exporter_plus.Prelude.{refl, each}
use exporter_plus.Mongodb.Calls.Fits.{IsFit, all_fit-append, all_fit-each}
use exporter_plus.Mongodb.ReplConf.{ReplSetConf, member_conf_calls, export_repl_set_conf}

pub export_repl_set_conf-IsFit :
    (F : Type 0) (s : ReplSetConf) → IsFit (export_repl_set_conf {F = F} s)
unfolding export_repl_set_conf member_conf_calls
export_repl_set_conf-IsFit F s =
    all_fit-append (each (member_conf_calls s.id) s.members) _
      (all_fit-each (member_conf_calls s.id) (λ _. refl) s.members) refl
