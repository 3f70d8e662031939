-- ===== src/Tests/Peers.antt =====
-- Files and chunks at two client programs, and how their session opens.
use epoll_chat.Common.{
  ℕ, suc, ◌<◌, ◌≤◌, ◌^◌, ◌+◌, ◌/◌, ◌≡◌, refl, ◌⊎◌, Bool, true, false, List, [], ◌∷◌, ◌++◌, Text,
  Option, none, some, if◌then◌else◌, codes, text_eq, length, arith, ◌==◌, ◌&&◌, contains, decimal,
  update,
}
use epoll_chat.Common.Int.{pos, negsuc}
use epoll_chat.Protobuf.{sample, sample_laws, put, put_value, c_string}
use epoll_chat.Proto.ImResponse
use epoll_chat.Proto.GetIpResponse
use epoll_chat.Proto.PrivateRegistrationResponse
use epoll_chat.Proto.ChunkDataRequest
use epoll_chat.Proto.ChunkDataRequest.{ChunkDataRequest}
use epoll_chat.Proto.ChunkDataResponse
use epoll_chat.Proto.ChunkDataResponse.{ChunkDataResponse}
use epoll_chat.Buffer.{contents}
use epoll_chat.World.{World}
use epoll_chat.Delivery.Queues.{queue}
use epoll_chat.Server.Connection.{accept_client, im_connection_accept, pick_client, find_slot}
use epoll_chat.Server.Talk.{address_response}
use epoll_chat.Files.{parse_packed_uint32}
use epoll_chat.Files.Values.{
  pack_repeated_uint32_from_str, written, written-size, parse-pack-numbers,
}
use epoll_chat.ClientApp.{App, regular, chunk_path, file_dir, make_dir}
use epoll_chat.ClientApp.Session.{accept_peer}
use epoll_chat.ClientApp.Console.{parse_line}
use epoll_chat.ClientApp.Network.{response_loop}
use epoll_chat.ClientApp.Network.Receive.{response_loop-ends}
use epoll_chat.ClientApp.Peers.{parse_response, write_file, get_chunk_data_response, chunk_data}
use epoll_chat.ClientApp.Peers.Chunks.{write_file-serves, write_file-keeps}
use epoll_chat.ClientApp.RegFile.{
  split_file, chunk_count, ask_chunk_size, register_request, base_name,
}
use epoll_chat.ClientApp.RegFile.Split.{joined, EachAtMost, split_file-joined}
use epoll_chat.ClientApp.RegFile.Negative.{NotPositive, ask_chunk_size-negative}
use epoll_chat.ClientApp.Names.{is_name}
use epoll_chat.ClientApp.Talk.{Queued}
use epoll_chat.ClientApp.Talk.Downloads.{download-stores}
use epoll_chat.ClientApp.Talk.Links.{SessionOpen}
use epoll_chat.ClientApp.Talk.Opening.{ip_response, session-opens}
use epoll_chat.Tests.Data.{
  alice, bob, online, pending, pairs, two_left, two_left-IsValid, two_users-BuffersValid,
}
use epoll_chat.Tests.Clients.{willing, app, app_at, bob_found}

abbrev abc : ChunkDataResponse
abc = record { filename = codes "f"; chunk = 0; payload = codes "abc" }

request_small :
    length (ChunkDataRequest.to_bytes (record { filename = codes "f"; chunk = 0 })) < 2 ^ 31
unfolding ChunkDataRequest.to_bytes ChunkDataRequest.to_msg put put_value
request_small = omega arith

abc_small : length (ChunkDataResponse.to_bytes abc) < 2 ^ 31
unfolding ChunkDataResponse.to_bytes ChunkDataResponse.to_msg put put_value
abc_small = omega arith

c_string_f : c_string (codes "f") ≡ codes "f"
unfolding c_string
c_string_f = refl

at_f : app.files (chunk_path app (codes "f") 0) ≡ some (regular (codes "abc"))
unfolding decimal epoll_chat.Common.digits_before
at_f = refl

download-stores_example :
    (a' b' : App) × (bytes data_bytes : Text) × (parse_line app (codes "private bob download f 0")
      ≡ some a')
    × Queued app a' 1 bytes
    × ((rest : Text) → parse_response app 0 (bytes ++ rest) ≡ some (b', length bytes))
    × Queued app b' 0 data_bytes
    × (s' : App) × ((rest : Text)
        → parse_response app 1 (data_bytes ++ rest) ≡ some (s', length data_bytes))
    × (s'.files (chunk_path app (codes "f") 0) ≡ some (regular (codes "abc")))
unfolding decimal epoll_chat.Common.digits_before
download-stores_example =
    download-stores sample_laws app app app bob 1 1 0 1 102 [] 0 (codes "abc") refl bob_found
      (refl, tt) (omega arith) (omega arith) c_string_f at_f refl
      (two_users-BuffersValid pairs pairs (pos 900)) (two_users-BuffersValid pairs pairs (pos 900))
      (omega arith) refl request_small abc_small

write_file-serves_example :
    get_chunk_data_response (write_file app abc) (record { filename = codes "f"; chunk = 0 })
    ≡ chunk_data (c_string (codes "f")) 0 (codes "abc")
write_file-serves_example =
    write_file-serves app abc (record { filename = codes "f"; chunk = 0 }) refl refl refl refl

abbrev next_chunk : ChunkDataResponse
next_chunk = record { filename = codes "f"; chunk = 1; payload = codes "de" }

f_name : is_name (c_string (codes "f")) ≡ true
unfolding c_string
f_name = refl

other_chunk : (text_eq (codes "f") (c_string (codes "f")) && (0 == 1)) ≡ false
unfolding c_string
other_chunk = refl

write_file-keeps_example :
    (write_file app next_chunk).files (chunk_path app (codes "f") 0) ≡ some (regular (codes "abc"))
write_file-keeps_example =
    write_file-keeps app next_chunk (codes "f") 0 (regular (codes "abc")) f_name refl other_chunk
      (omega arith) (omega arith) at_f

response_loop-ends_example :
    (response_loop (suc (length (contents two_left))) (app_at pending []) 0 ≡ none)
    ⊎ ((a' : App) × (response_loop (suc (length (contents two_left))) (app_at pending []) 0
          ≡ some (a', true)))
response_loop-ends_example =
    response_loop-ends sample_laws (app_at pending []) 0 two_left-IsValid (omega arith)

split_file-joined_example :
    (k : ℕ) × (a' : App) × (chunk_count 3 (pos 2) ≡ pos k)
    × (split_file app (codes "g") (codes "g") (codes "abc") (pos 2) (pos k) ≡ some a')
    × (joined a' (codes "g") 0 k ≡ codes "abc")
    × EachAtMost 2 a' (codes "g") 0 k
split_file-joined_example =
    split_file-joined app (codes "g") (codes "g") (codes "abc") 2 (omega arith) (omega arith) refl
      refl (λ files i. refl)

-- The size -2, and a confirmation.
abbrev minus_two : App
minus_two = record app { stdin = codes "-2" ++ (10 ∷ b'y' ∷ 10 ∷ []) }

minus_two_lem : minus_two.stdin ≡ b'-' ∷ (decimal 2 ++ (10 ∷ b'y' ∷ 10 ∷ []))
unfolding decimal epoll_chat.Common.digits_before
minus_two_lem = refl

no_directory : minus_two.files (file_dir minus_two (base_name (codes "g"))) ≡ none
unfolding base_name decimal epoll_chat.Common.digits_before
no_directory = refl

ask_chunk_size-negative_example :
    (a' : App) × (ask_chunk_size minus_two (codes "g") (codes "abc")
      ≡ some (a', some (register_request (base_name (codes "g")) (chunk_count 3 (negsuc 1)))))
    × (a'.files ≡ make_dir minus_two.files (file_dir minus_two (base_name (codes "g"))))
    × NotPositive (chunk_count 3 (negsuc 1))
ask_chunk_size-negative_example =
    ask_chunk_size-negative minus_two (codes "g") (codes "abc") [] 1 (omega arith) (omega arith)
      minus_two_lem no_directory refl refl

written-size_example : written 10 (codes "1 22 x") ≤ 1 + 6 / 2
written-size_example = written-size 10 (codes "1 22 x")

parse-pack-numbers_example :
    (bytes : Text) × (pack_repeated_uint32_from_str (decimal 1 ++ (b' ' ∷ decimal 22))
      ≡ some (bytes, 2))
    × (parse_packed_uint32 bytes ≡ 1 ∷ 22 ∷ [])
parse-pack-numbers_example = parse-pack-numbers 1 (22 ∷ []) (omega arith, (omega arith, tt))

-- A connection to bob succeeds.
abbrev asker : App
asker = app_at online (some 12 ∷ [])

address_small : length (GetIpResponse.to_bytes (ip_response online bob 1)) < 2 ^ 31
unfolding GetIpResponse.to_bytes GetIpResponse.to_msg put put_value epoll_chat.World.sockaddr_bytes
address_small = omega arith

name_small : length (PrivateRegistrationResponse.to_bytes (record { username = alice })) < 2 ^ 31
unfolding PrivateRegistrationResponse.to_bytes PrivateRegistrationResponse.to_msg put put_value
name_small = omega arith

names : (c_string bob ≡ bob) × (c_string alice ≡ alice)
unfolding c_string
names = (refl, refl)

-- The connection stands behind those of alice and bob in the table.
abbrev dialled : App
dialled =
    let w = (im_connection_accept online 12 (online.clients 1).addr).0 in
    record asker {
      world = record w { slots = 0 ∷ 1 ∷ 2 ∷ [] };
      close_prehooks = update asker.close_prehooks 2 false;
      close_callbacks = update asker.close_callbacks 2 false;
      dials = [];
    }

dialled_lem :
    accept_peer (record asker { last_response = true; dials = [] }) 12 (online.clients 1).addr
    ≡ some dialled
unfolding accept_peer accept_client im_connection_accept pick_client find_slot
dialled_lem = refl

session-opens_example :
    (a' b' : App) × (bytes : Text) × ((rest : Text)
      → parse_response asker 0 (ImResponse.to_bytes (address_response online bob 1) ++ rest)
        ≡ some (a', length (ImResponse.to_bytes (address_response online bob 1))))
    × SessionOpen a' bob 2
    × (queue a'.world 2 ≡ bytes)
    × ((rest : Text) → parse_response app 1 (bytes ++ rest) ≡ some (b', length bytes))
    × SessionOpen b' alice 1
session-opens_example =
    session-opens sample_laws online 1 asker dialled app 0 12 1 [] bob refl refl dialled_lem names.0
      names.1 (omega arith) (omega arith) address_small name_small
