-- ===== src/Tests/Client.antt =====
-- The theorems of the client and of comm.c at concrete inputs. The network of these tests answers a
-- request itself: a LOOKUP by the next handle, and a READ by eight bytes.
use mathlib.Core.List.{map}
use stanford_cs240_sp21_labs.Base.{All, List, Option, [], arith, length, refl, replicate, some}
use stanford_cs240_sp21_labs.Base.{◌+◌, ◌∷◌, ◌≡◌, ◌≤◌}
use stanford_cs240_sp21_labs.Base.Bytes.{Bytes, c_str}
use stanford_cs240_sp21_labs.Base.Exec.{checked, exited, fail, given, ok, returned, ◌>>=◌}
use stanford_cs240_sp21_labs.Base.Exec.Post.{Post}
use stanford_cs240_sp21_labs.Base.Int.{negsuc, pos}
use stanford_cs240_sp21_labs.Client.Attr.{fattr_to_stat}
use stanford_cs240_sp21_labs.Client.Files.{snfs_read}
use stanford_cs240_sp21_labs.Client.Path.{lookup, name_buffer, tokens}
use stanford_cs240_sp21_labs.Client.Replies.{IsReplyTo, send_request-IsReplyTo}
use stanford_cs240_sp21_labs.Client.Request.{mount_on, mount_root, not_error, send_request}
use stanford_cs240_sp21_labs.Client.Request.{server_mount, snfs_init, snfs_req_rep}
use stanford_cs240_sp21_labs.Client.Request.{snfs_req_rep_f, test_connection}
use stanford_cs240_sp21_labs.Client.Roundtrip.{IsStat, fattr_to_stat-stat_to_fattr}
use stanford_cs240_sp21_labs.Client.State.{ClientState, Host, with_net}
use stanford_cs240_sp21_labs.Client.Tokens.{IsFileName, name_buffer_lem, spell}
use stanford_cs240_sp21_labs.Client.Walk.{IsUpTo, Resolves, lookup-walk, snfs_read-IsUpTo, walk}
use stanford_cs240_sp21_labs.Comm.{current_ms, receive_data, receive_loop, send_data, send_loop}
use stanford_cs240_sp21_labs.Comm.Ends.{Returns, receive_data-Returns, send_data-Returns}
use stanford_cs240_sp21_labs.Journey.{IsSendable, reach, reach-tokens}
use stanford_cs240_sp21_labs.Platform.{Net, Packet, Platform, Stat, ebadf, reply, request}
use stanford_cs240_sp21_labs.Proto.{Fhandle, Rep, SnfsError, error_rep, lookup_args, lookup_rep}
use stanford_cs240_sp21_labs.Proto.{mount_args, mount_rep, noop_args, noop_rep, read_args}
use stanford_cs240_sp21_labs.Proto.{read_rep, rep_type, req_type}
use stanford_cs240_sp21_labs.Server.Attr.{stat_to_fattr}
use stanford_cs240_sp21_labs.Server.Files.{zero_fattr}
use stanford_cs240_sp21_labs.Tests.Machine.{booted, disk, table, wire, wire-ClockRuns}

abbrev answer_to : Packet → Rep
answer_to (request (lookup_args a)) =
    lookup_rep (record { handle = a.dir + 1; attributes = zero_fattr })
answer_to (request (read_args a)) =
    read_rep (record { count = 8; eof = 0; payload = replicate 8 7 })
answer_to (request noop_args) = noop_rep
answer_to (request mount_args) = mount_rep 5
answer_to (request req) = error_rep SnfsError.enotimpl
answer_to (reply rep) = rep

abbrev echo : Net
echo = record {
  State = Rep;
  nn_connect = λ sock url n. (ok 1, n);
  nn_shutdown = λ sock how n. (ok tt, n);
  nn_send = λ sock p size flags n. (ok size, answer_to p);
  nn_recv_request = λ sock flags n. (fail ebadf, n);
  nn_recv_reply = λ sock flags n. (ok (n, 300), n);
  nn_close = λ sock n. (ok tt, n);
  nn_term = λ n. n;
  gettimeofday = λ n. ((0, 0), n);
  usleep = λ us n. n;
}

abbrev echoing : Platform
echoing = record { os = disk; database = table; net = echo; rounds = 1 }

abbrev client : ClientState
client = record { server_url = []; server_sock = 3; root_fhandle = 5 }

abbrev host : Host echoing
host = record { net = noop_rep; os = (booted []).os }

abbrev no_memory : Bytes → Bytes
no_memory s = []

abbrev next_handle : Fhandle → Bytes → Option Fhandle
next_handle dir name = some (dir + 1)

echoing-Resolves : Resolves echoing no_memory client next_handle
unfolding send_request snfs_req_rep_f send_data send_loop receive_data receive_loop current_ms
    with_net checked given not_error rep_type req_type ◌>>=◌
echoing-Resolves = record { answer = λ dir name w. refl }

abbrev names : List Bytes
names = (b'a' ∷ []) ∷ (b'b' ∷ b'c' ∷ []) ∷ []

names-IsFileName : All IsFileName names
names-IsFileName = ((omega arith, tt), ((omega arith, (omega arith, tt)), tt))

lookup-walk_example : Post (λ r _. r ≡ some 7) (lookup echoing no_memory client (spell names) host)
unfolding walk given
lookup-walk_example =
    lookup-walk echoing no_memory client next_handle names host names-IsFileName echoing-Resolves

name_buffer_lem_example :
    (length (name_buffer no_memory (b'a' ∷ [])) ≡ 256)
    × (c_str (name_buffer no_memory (b'a' ∷ [])) ≡ b'a' ∷ [])
name_buffer_lem_example = name_buffer_lem no_memory (b'a' ∷ []) (omega arith, tt)

snfs_read-IsUpTo_example :
    Post
      (λ r _. IsUpTo 4 r.0 × (length r.1 ≤ 4))
      (snfs_read echoing no_memory client 6 4 (pos 0) host)
snfs_read-IsUpTo_example = snfs_read-IsUpTo echoing no_memory client 6 4 (pos 0) host

send_request-IsReplyTo_example :
    Post (λ r _. IsReplyTo mount_args r) (send_request echoing client mount_args 4 host)
send_request-IsReplyTo_example = send_request-IsReplyTo echoing client mount_args 4 host

abbrev a_stat : Stat
a_stat = record {
  st_mode = 33188;
  st_nlink = 1;
  st_uid = 1000;
  st_gid = 1000;
  st_size = 12;
  st_rdev = 0;
  st_dev = 3;
  st_ino = 77;
  st_atime = pos 10;
  st_mtime = pos 20;
  st_ctime = negsuc 0;
}

a_stat-IsStat : IsStat a_stat
a_stat-IsStat = record {
  mode = omega arith;
  nlink = omega arith;
  uid = omega arith;
  gid = omega arith;
  size = omega arith;
  ino = omega arith;
}

fattr_to_stat-stat_to_fattr_example :
    fattr_to_stat (stat_to_fattr a_stat zero_fattr) a_stat ≡ a_stat
fattr_to_stat-stat_to_fattr_example =
    fattr_to_stat-stat_to_fattr a_stat a_stat zero_fattr a_stat-IsStat

send_data-Returns_example : Returns (send_data wire 1834 3 (request noop_args) 4 1 (booted []).net)
send_data-Returns_example =
    send_data-Returns wire wire-ClockRuns 1834 3 (request noop_args) 4 1 (booted []).net
      (omega arith)

receive_data-Returns_example : Returns (receive_data wire 5000 3 1 (booted []).net)
receive_data-Returns_example =
    receive_data-Returns wire wire-ClockRuns 5000 3 1 (booted []).net (omega arith)

names-IsSendable : All IsSendable names
names-IsSendable = (
  record { file_name = (omega arith, tt); plain = (omega arith, tt); short = omega arith },
  (
    record {
      file_name = (omega arith, (omega arith, tt));
      plain = (omega arith, (omega arith, tt));
      short = omega arith;
    },
    tt,
  ),
)

reach-tokens_example :
    reach (b'/' ∷ []) (map (λ n. c_str (name_buffer no_memory n)) (tokens (spell names)))
    ≡ spell names
reach-tokens_example = reach-tokens no_memory (b'a' ∷ []) ((b'b' ∷ b'c' ∷ []) ∷ []) names-IsSendable

-- The client starts, and gets the root's handle; it does not without a socket.
snfs_init_test : (snfs_init echoing (λ n. (ok 3, n)) (λ rep. 0) [] host).0 ≡ returned client
unfolding snfs_init mount_on test_connection server_mount mount_root snfs_req_rep snfs_req_rep_f
    send_data send_loop receive_data receive_loop current_ms with_net checked given not_error
    rep_type req_type ◌>>=◌
snfs_init_test = refl

snfs_init_without_socket : (snfs_init echoing (λ n. (fail 24, n)) (λ rep. 0) [] host).0 ≡ exited 134
unfolding snfs_init with_net checked ◌>>=◌
snfs_init_without_socket = refl
