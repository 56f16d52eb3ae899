-- ===== src/CallArgs/Examples.antt =====
-- The arguments of a kill, with one of them given twice.
use go_atomos.Atom.{mail_kill}
use go_atomos.CallArgs.{
  pos, timeout_value, wait_killed, create_base_atomos_helper, get_remote_arg,
  create_ext_for_cosmos_args,
}
use go_atomos.CallArgs.Trip.{Parsed, create_base_atomos_helper-get_remote_arg}
use go_atomos.Common.{none, some, [], ◌∷◌}

create_base_atomos_helper-get_remote_arg_example :
    let h =
      create_base_atomos_helper mail_kill
        (some (timeout_value (pos 5)) ∷ some wait_killed ∷ some wait_killed ∷ none ∷ []) in
    Parsed h.timeout h.to_head h.killed
      (create_base_atomos_helper mail_kill (create_ext_for_cosmos_args (some (get_remote_arg h))))
create_base_atomos_helper-get_remote_arg_example =
    create_base_atomos_helper-get_remote_arg mail_kill
      (some (timeout_value (pos 5)) ∷ some wait_killed ∷ some wait_killed ∷ none ∷ [])
