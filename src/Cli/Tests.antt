-- ===== src/Cli/Tests.antt =====
-- app/cli.cpp at concrete command lines.
use rasync.Prelude.{◌≡◌, refl, true, List, [], ◌∷◌, some, ◌-◌, ◌^◌}
use rasync.Prelude.Int.{negsuc}
use rasync.Prelude.Text.{text}
use rasync.Codec.Writer.{Bytes}
use rasync.Reconcile.{SyncMode}
use rasync.Service.{listed}
use rasync.Cli.{
  folder_defaults, option_defaults, parse_uint, skip_space, unsigned_digits, digits_value,
  valid_folder_name, no_control,
}
use rasync.Cli.Parse.{
  Reason, accepted, failed, parse_args, parse_loop, apply, finish, first_flag, split_option,
  split_eq, over_current, over_last, set_port, set_interval, set_name, check_roles, check_names,
}
use rasync.Cli.Checks.{Accepted}
use rasync.Cli.Accepted.{parse_args-Accepted}

abbrev two_folders : List Bytes
two_folders =
    text "--port=9000"
    ∷ text "./work"
    ∷ text "./archive"
    ∷ text "--name"
    ∷ text "old"
    ∷ text "--mirror"
    ∷ text "--source"
    ∷ []

parse_args-Accepted_example : Accepted (parse_args two_folders)
parse_args-Accepted_example = parse_args-Accepted two_folders

-- The port is the node's, and the rest is of the second folder only.
two_folders_parsed :
    parse_args two_folders
    ≡ accepted (record option_defaults {
      port = 9000;
      folders =
          record folder_defaults { directory = text "./work" }
          ∷ record folder_defaults {
            directory = text "./archive";
            name = text "old";
            mode = SyncMode.mirror;
            source = true;
          }
          ∷ [];
    })
unfolding parse_args parse_loop apply finish first_flag split_option split_eq over_current over_last
    set_port set_name parse_uint skip_space unsigned_digits digits_value valid_folder_name
    no_control check_roles check_names listed
two_folders_parsed = refl

no_role_given : parse_args (text "a" ∷ text "--mirror" ∷ []) ≡ failed Reason.no_role
unfolding parse_args parse_loop apply finish first_flag split_option split_eq over_current over_last
    check_roles
no_role_given = refl

-- The seconds of `--interval -5` and of `--interval 4294967296`, as they are stored.
interval_below_zero : parse_uint (text "-5") ≡ some (2 ^ 64 - 5)
unfolding parse_uint skip_space unsigned_digits digits_value
interval_below_zero = refl

interval_wrapped :
    parse_args (text "--interval" ∷ text "4294967291" ∷ text "a" ∷ [])
    ≡ accepted (record option_defaults {
      interval = negsuc 4;
      folders = record folder_defaults { directory = text "a" } ∷ [];
    })
unfolding parse_args parse_loop apply finish first_flag split_option split_eq set_interval
    parse_uint skip_space unsigned_digits digits_value check_roles check_names listed
interval_wrapped = refl
