-- ===== src/Tests/Runs.antt =====
-- Runs of the server's model on the machine of `Machine`: a MOUNT, a LOOKUP of a file in the root,
-- and a READ of it, one after the other.
use stanford_cs240_sp21_labs.Base.{[], refl, ◌+◌, ◌^◌, ◌∷◌, ◌≡◌}
use stanford_cs240_sp21_labs.Base.Bytes.{bytes_eq, c_str, from_le, le_bytes}
use stanford_cs240_sp21_labs.Base.Exec.{checked, given, ◌>>=◌}
use stanford_cs240_sp21_labs.Base.Int.{pos}
use stanford_cs240_sp21_labs.Comm.{current_ms, send_data, send_loop}
use stanford_cs240_sp21_labs.Fhandledb.{find, generate_new_fhandle, get_file, init_db_if_needed}
use stanford_cs240_sp21_labs.Fhandledb.{insert, name_find_or_insert, new_fhandle}
use stanford_cs240_sp21_labs.Proto.{Fhandle, Rep, Req, lookup_args, mount_args, mount_rep}
use stanford_cs240_sp21_labs.Proto.{noop_rep, read_args, read_rep, req_type}
use stanford_cs240_sp21_labs.Server.Data.{below_ssize, error_and_close, handle_read, read_bytes}
use stanford_cs240_sp21_labs.Server.Data.{read_from, read_reply}
use stanford_cs240_sp21_labs.Server.Files.{ends_with_slash, handle_lookup, handle_mount}
use stanford_cs240_sp21_labs.Server.Files.{join_path, lookup_in, starts_with_slash, zero_fattr}
use stanford_cs240_sp21_labs.Server.Loop.{dispatch}
use stanford_cs240_sp21_labs.Server.Reply.{allocate, handle_error, reply_with, send_reply}
use stanford_cs240_sp21_labs.Tests.Machine.{booted, file_at, machine, skip, table_get}
use stanford_cs240_sp21_labs.World.{World, log_sent, on_db, on_net, set_dbp, sys}

abbrev handle : Req → World machine → World machine
handle req w = (dispatch zero_fattr 3 (req_type req) req w).1

abbrev last_reply : World machine → Rep
last_reply w = elim w.sent [ [] ↦ noop_rep | m ∷ log ↦ m.rep ]

-- The root has the first handle that is drawn, and the file the second.
abbrev root : Fhandle
root = 2 ^ 63 + 1

abbrev file : Fhandle
file = 2 ^ 63 + 2

abbrev after_mount : World machine
after_mount = handle mount_args (booted [])

abbrev after_lookup : World machine
after_lookup = handle (lookup_args (record { dir = root; filename = b'a' ∷ 0 ∷ [] })) after_mount

abbrev after_read : World machine
after_read = handle (read_args (record { file = file; offset = pos 1; count = 9 })) after_lookup

mount_reply : last_reply after_mount ≡ mount_rep root
unfolding dispatch req_type handle_mount handle_lookup lookup_in join_path ends_with_slash
    starts_with_slash allocate handle_read read_from read_bytes read_reply below_ssize get_file
    name_find_or_insert find init_db_if_needed new_fhandle generate_new_fhandle insert table_get
    reply_with send_reply send_data send_loop current_ms checked given sys on_db on_net set_dbp
    log_sent ◌>>=◌ le_bytes from_le c_str bytes_eq file_at skip handle_error error_and_close
mount_reply = refl

-- Four bytes are left behind the offset, so the end of the file is reported.
read_reply_test :
    last_reply after_read ≡ read_rep (record { count = 4; eof = 1; payload = 2 ∷ 3 ∷ 4 ∷ 5 ∷ [] })
unfolding dispatch req_type handle_mount handle_lookup lookup_in join_path ends_with_slash
    starts_with_slash allocate handle_read read_from read_bytes read_reply below_ssize get_file
    name_find_or_insert find init_db_if_needed new_fhandle generate_new_fhandle insert table_get
    reply_with send_reply send_data send_loop current_ms checked given sys on_db on_net set_dbp
    log_sent ◌>>=◌ le_bytes from_le c_str bytes_eq file_at skip handle_error error_and_close
read_reply_test = refl

-- The file that was opened is closed.
closed_test : after_read.os.open_count ≡ 0
unfolding dispatch req_type handle_mount handle_lookup lookup_in join_path ends_with_slash
    starts_with_slash allocate handle_read read_from read_bytes read_reply below_ssize get_file
    name_find_or_insert find init_db_if_needed new_fhandle generate_new_fhandle insert table_get
    reply_with send_reply send_data send_loop current_ms checked given sys on_db on_net set_dbp
    log_sent ◌>>=◌ le_bytes from_le c_str bytes_eq file_at skip handle_error error_and_close
closed_test = refl
