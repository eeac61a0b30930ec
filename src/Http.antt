-- ===== src/Http.antt =====
-- source/http_server.cc, source/http_client.cc and source/include/http_server.hh: the bodies of
-- requests and responses, which libmicrohttpd and curl move in pieces. Those libraries' calls are
-- arguments: which pieces come and go, and the result of curl_easy_perform.
pub mod Transfer
use libinv.Prelude.{
  ℕ, zero, suc, ◌+◌, ◌-◌, Bool, true, false, not, ◌||◌, List, [], ◌∷◌, ◌++◌, Bytes, codes, Option,
  none, some, ltb, ◌==◌, list_eqb, length, nat_ord, if◌then◌else◌,
}
use libinv.Exception.{Exception, base, http_client_exception}
use libinv.Exec.{Result, ok, err, ◌>>=◌}
use libinv.FileMap.{FileMap}

-- The first max bytes, and what is behind the first pos bytes.
unfoldable pub take : ℕ → Bytes → Bytes
take zero s = []
take (suc n) [] = []
take (suc n) (x ∷ s) = x ∷ take n s

unfoldable pub drop : ℕ → Bytes → Bytes
drop zero s = s
drop (suc n) [] = []
drop (suc n) (x ∷ s) = drop n s

-- What a content reader returns: bytes, or MHD_CONTENT_READER_END_OF_STREAM.
pub data Reading : Type 0 where
  bytes : Bytes → Reading
  end_of_stream : Reading

-- _http_response_reader(cls, pos, buf, max), on the session's response
unfoldable pub response_reader : Bytes → ℕ → ℕ → Reading
unfolding take drop
response_reader response pos max =
    if max == 0
    then bytes []
    else if not (ltb pos (length response))
    then end_of_stream
    else bytes (take max (drop pos response))

-- HTTPServerSession: the request and the response so far, and whether the connection is suspended
pub record HttpServerSession : Type 0 where
  pub request : Bytes
  pub response : Bytes
  pub suspended : Bool
  pub handle : Bytes

-- HTTPServerSession(server, connection, handle)
unfoldable pub construct : Bytes → HttpServerSession
construct handle = record { request = []; response = []; suspended = false; handle = handle }

-- reply_async(response), with the text of the response
unfoldable pub reply_async : Bytes → HttpServerSession → HttpServerSession
reply_async response s = record s { response = response; suspended = false }

-- What a call of _http_rpc_handler comes to: the connection is aborted, more is expected, or the
-- text is pushed as a request to the work queue and a response is queued.
pub data Outcome : Type 0 where
  aborted : Outcome
  accepted : HttpServerSession → Outcome
  pushed : Bytes → HttpServerSession → Outcome

unfoldable pub rpc_handler : Bytes → Bytes → HttpServerSession → Outcome
rpc_handler method [] s =
    if list_eqb method (codes "POST")
    then pushed s.request (record s { suspended = true })
    else aborted
rpc_handler method (x ∷ post_data) s =
    if list_eqb method (codes "POST")
    then accepted (record s { request = s.request ++ x ∷ post_data })
    else aborted

-- _http_dispatch_handler: the first call on a connection makes the session, for the name in the
-- client's certificate, or throws where there is none. "/upload" has a handler without a body, whose
-- return value is undefined: `none`.
unfoldable pub dispatch_handler :
    Result Bytes → Bytes → Bytes → Bytes → Option HttpServerSession → Option (Result Outcome)
unfolding construct rpc_handler
dispatch_handler certificate url method post_data none =
    some (do client_handle ← certificate; ok (accepted (construct client_handle)))
dispatch_handler certificate url method post_data (some s) =
    if list_eqb url (codes "/upload") then none else some (ok (rpc_handler method post_data s))

-- HTTPServer::use_tls, of the paths of the key and the certificate
unfoldable pub use_tls : FileMap → FileMap → Bool
use_tls key_map cert_map = not (list_eqb key_map.filename [] || list_eqb cert_map.filename [])

-- _curl_rpc_write_cb: the reply so far with the piece, and the number of bytes taken
unfoldable pub write_cb : Bytes → Bytes → Bytes × ℕ
write_cb piece reply_buffer = (reply_buffer ++ piece, length piece)

-- _curl_rpc_read_cb: at most `max` bytes of what is left of the request
unfoldable pub read_cb : ℕ → Bytes → Bytes × Bytes
unfolding take drop
read_cb max request_stream = (take max request_stream, drop max request_stream)

-- _curl_upload_read_cb: the first bytes of the file, at each call; `none` where it reads behind the
-- end of the data
unfoldable pub upload_read_cb : ℕ → Bytes → Option Bytes
unfolding take
upload_read_cb max file = if ltb (length file) max then none else some (take max file)

-- What is appended to the reply buffer by the pieces that come.
unfoldable pub received : List Bytes → Bytes → Bytes
unfolding write_cb
received [] reply_buffer = reply_buffer
received (piece ∷ pieces) reply_buffer = received pieces (write_cb piece reply_buffer).0

-- HTTPClientSession::call, where curl_easy_perform ends with CURLE_OK or with a text in errbuf
unfoldable pub call : Option Bytes → List Bytes → Result Bytes
unfolding received
call none pieces = ok (received pieces [])
call (some errbuf) pieces =
    err (base http_client_exception (codes "Couldn't complete request: " ++ errbuf))

-- notify drops the response
unfoldable pub notify : Option Bytes → List Bytes → Result (Unit {0})
unfolding call
notify performed pieces = do response ← call performed pieces; ok tt
