-- ===== src/Tests/Start.antt =====
-- Numbers on a command line, and the start of both programs of lab2 on a small machine.
use stanford_cs240_sp21_labs.Base.{List, [], arith, false, length, none, refl, some, true, ◌++◌}
use stanford_cs240_sp21_labs.Base.{◌^◌, ◌∷◌, ◌≡◌}
use stanford_cs240_sp21_labs.Base.Bytes.{Bytes}
use stanford_cs240_sp21_labs.Base.Exec.{checked, exited, fail, given, ok, returned, ◌>>=◌}
use stanford_cs240_sp21_labs.Base.Int.{negsuc, pos}
use stanford_cs240_sp21_labs.Client.State.{Host, with_os}
use stanford_cs240_sp21_labs.Fhandledb.{init_db_if_needed}
use stanford_cs240_sp21_labs.Server.Files.{zero_fattr}
use stanford_cs240_sp21_labs.Server.Loop.{net_call}
use stanford_cs240_sp21_labs.Start.Client.{Mount, client_loop, client_main, client_option}
use stanford_cs240_sp21_labs.Start.Client.{fuse_arguments, mount_at}
use stanford_cs240_sp21_labs.Start.Mounts.{Starts, client_main-Starts}
use stanford_cs240_sp21_labs.Start.Number.{digit_value, digits, long_max, parse_number}
use stanford_cs240_sp21_labs.Start.Number.{print_long, strtol, tcp_url, url_scheme}
use stanford_cs240_sp21_labs.Start.Number.Print.{parse_number-print_long, tcp_url_lem}
use stanford_cs240_sp21_labs.Start.Options.{Getopt}
use stanford_cs240_sp21_labs.Start.Server.{Boot, argument, move_to}
use stanford_cs240_sp21_labs.Start.Server.{parse_command_line, serve_at, serve_directory}
use stanford_cs240_sp21_labs.Start.Server.{serve_in, server_main, server_option, set_port}
use stanford_cs240_sp21_labs.Tests.Machine.{booted, machine}
use stanford_cs240_sp21_labs.World.{on_net, sys}

hexadecimal : parse_number false (b'0' ∷ b'x' ∷ b'1' ∷ b'F' ∷ []) ≡ (pos 1, some (pos 31))
unfolding parse_number strtol digit_value
hexadecimal = refl

octal : parse_number false (b' ' ∷ b'+' ∷ b'0' ∷ b'1' ∷ b'7' ∷ []) ≡ (pos 1, some (pos 15))
unfolding parse_number strtol digit_value
octal = refl

-- Behind `0x` there is no digit: the number is the 0.
half_prefix : parse_number false (b'0' ∷ b'x' ∷ b'g' ∷ []) ≡ (pos 0, some (pos 0))
unfolding parse_number strtol digit_value
half_prefix = refl

no_number : parse_number false (b'-' ∷ b'a' ∷ []) ≡ (negsuc 0, none)
unfolding parse_number strtol digit_value
no_number = refl

out_of_range : parse_number false (print_long (pos (2 ^ 63))) ≡ (negsuc 0, none)
unfolding parse_number strtol digit_value print_long digits
out_of_range = refl

-- The largest long is refused where `errno` is ERANGE from before.
stale : parse_number true (print_long (pos long_max)) ≡ (negsuc 0, none)
unfolding parse_number strtol digit_value print_long digits
stale = refl

parse_number-print_long_example :
    parse_number true (print_long (negsuc 2047)) ≡ (pos 1, some (negsuc 2047))
parse_number-print_long_example = parse_number-print_long true (negsuc 2047) (omega arith) refl

tcp_url_lem_example : tcp_url (negsuc long_max) ≡ url_scheme ++ print_long (negsuc long_max)
tcp_url_lem_example = tcp_url_lem (negsuc long_max) (omega arith)

abbrev boot : Boot machine
boot = record {
  arc4random_stir = λ d. d;
  realpath = λ path d. (ok path, d);
  chdir = λ path d. (ok tt, record d { current = path });
  chroot = λ path d. (ok tt, record d { position = 1 });
  sigaction = λ d. d;
  nn_socket = λ n. (ok 3, n);
  nn_bind = λ sock url n. (fail 98, n);
}

-- `snfs -p 2049 /`.
abbrev line : Getopt
line = record {
  calls =
      record { opt = b'p'; optarg = b'2' ∷ b'0' ∷ b'4' ∷ b'9' ∷ []; optopt = 0; erange = false }
      ∷ [];
  optind = 3;
}

abbrev arguments : List Bytes
arguments = (b's' ∷ []) ∷ (b'-' ∷ b'p' ∷ []) ∷ (b'2' ∷ b'0' ∷ b'4' ∷ b'9' ∷ []) ∷ (b'/' ∷ []) ∷ []

-- The port is in use, so the process ends; it has changed its root before.
port_in_use : (server_main boot zero_fattr line arguments (booted [])).0 ≡ exited 1
unfolding server_main parse_command_line serve_directory move_to serve_in serve_at ◌>>=◌ sys checked
    given init_db_if_needed net_call on_net set_port parse_number strtol digit_value argument
    server_option
port_in_use = refl

abbrev mount : Mount machine
mount = record { closedir = λ d s. s; fuse_main = λ args url w. (returned (length args), w) }

abbrev client_line : Getopt
client_line = record {
  calls = record { opt = b'd'; optarg = []; optopt = 0; erange = false } ∷ [];
  optind = 2;
}

abbrev client_arguments : List Bytes
client_arguments = (b'-' ∷ b'd' ∷ []) ∷ (b'u' ∷ []) ∷ (b'/' ∷ []) ∷ []

abbrev client_host : Host machine
client_host = record { net = (booted []).net; os = (booted []).os }

client_main-Starts_example : Starts mount client_line (b'c' ∷ []) client_arguments client_host
client_main-Starts_example =
    client_main-Starts mount client_line (b'c' ∷ []) client_arguments client_host

six_arguments :
    (client_main mount client_line (b'c' ∷ []) client_arguments client_host).0 ≡ returned 6
unfolding client_main client_loop client_option mount_at fuse_arguments ◌>>=◌ with_os checked given
    argument
six_arguments = refl
