-- ===== src/Stormd/Daemons/Args.antt =====
-- What the child processes are given on their command line.
use storm_node.Base.{String, ◌≡◌, refl, false, List, [], ◌∷◌, ◌++◌, ap, ◌∙◌, arith}
use storm_node.Stormd.Daemons.{own_options, starts_with_any, keep_args, cmd_args}

keep_args-append : (xs ys : List String) → keep_args (xs ++ ys) ≡ keep_args xs ++ keep_args ys
unfolding keep_args
keep_args-append [] ys = refl
keep_args-append (x ∷ xs) ys = ground (arith, keep_args-append xs ys)

-- The option `--chat-endpoint`, which every daemon takes, is dropped wherever it stands, since its
-- name begins with `--chat`; its value, if it stands apart, is passed on alone.
pub chat_endpoint_value_left :
    (program value : String) (before after : List String)
    → starts_with_any value own_options ≡ false
    → cmd_args (program ∷ before ++ "--chat-endpoint" ∷ value ∷ after)
      ≡ keep_args before ++ value ∷ keep_args after
unfolding cmd_args
chat_endpoint_value_left program value before after h =
    keep_args-append before _
    ∙ ap (◌++◌ (keep_args before)) (unfold keep_args starts_with_any in rw h)
