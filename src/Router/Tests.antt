-- ===== src/Router/Tests.antt =====
-- net/sync_router.cpp at concrete folders and messages.
use rasync.Prelude.{◌≡◌, refl, arith, true, [], ◌∷◌, some, none}
use rasync.Codec.Writer.{Bytes}
use rasync.Codec.Reader
use rasync.Codec.Reader.{start}
use rasync.Router.{Folder, find_tag, empty_router, add_folder, report_unknown, quoted_name}
use rasync.Router.Table.{add_all}
use rasync.Router.Dispatch.{message, handed, on_message, on_message-message}
use rasync.Router.Reports.{Strays, report_all, report_unknown_once}

abbrev docs : Folder
docs = record { tag = 7; name = b'd' ∷ [] }

-- A name that hashes to the same tag.
abbrev twin : Folder
twin = record { tag = 7; name = b't' ∷ [] }

docs_accepted : (add_folder docs empty_router).0 ≡ true
unfolding add_folder
docs_accepted = refl

-- A folder with a name that hashes to the same tag is offered, and then a NotFound arrives.
on_message-message_example :
    on_message
      (b'p' ∷ [])
      (message 7 9 (b'x' ∷ []))
      (add_all (twin ∷ []) (add_folder docs empty_router).1)
    ≡ (
      handed docs (b'p' ∷ []) 9 (start (b'x' ∷ [])),
      add_all (twin ∷ []) (add_folder docs empty_router).1,
    )
unfolding add_folder find_tag
on_message-message_example =
    on_message-message docs empty_router (twin ∷ []) (b'p' ∷ []) 9 (b'x' ∷ []) docs_accepted
      (omega arith) (omega arith) refl

-- A Hello under tag 9, of version 4 and folder x.
abbrev hello : Bytes
hello = 0 ∷ 0 ∷ 0 ∷ 9 ∷ 1 ∷ 4 ∷ 0 ∷ 0 ∷ 0 ∷ 1 ∷ b'x' ∷ []

abbrev peer : Bytes
peer = b'p' ∷ []

abbrev strays : Strays
strays = (peer, 9, hello) ∷ (peer, 9, hello) ∷ (peer, 8, hello) ∷ []

hello_reported : (report_unknown peer 9 hello empty_router).0 ≡ some (b'x' ∷ [])
unfolding report_unknown quoted_name Reader.u32 Reader.u8 Reader.str16 Reader.be_value
hello_reported = refl

report_unknown_once_example :
    (report_unknown peer 9 hello (report_all strays (report_unknown peer 9 hello empty_router).1)).0
    ≡ none
report_unknown_once_example =
    report_unknown_once peer 9 hello (b'x' ∷ []) empty_router strays hello hello_reported
