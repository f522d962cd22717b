-- ===== src/Router/Dispatch.antt =====
-- net/protocol.h: the header of a message, and net/sync_router.cpp: `on_message`, which reads it.
use rasync.Prelude.{
  ℕ, ◌%◌, ◌^◌, ◌<◌, ◌≡◌, refl, ◌∙◌, ap, arith, Bool, true, false, List, [], ◌∷◌, ◌++◌,
}
use rasync.Prelude.{Option, none, some, length, length-append, ltb, if◌then◌else◌}
use rasync.Codec.Writer
use rasync.Codec.Writer.{Bytes, be_bytes}
use rasync.Codec.Reader
use rasync.Codec.Reader.{Reader, start}
use rasync.Codec.RoundTrip.{u32-Reads, u8-Reads, length-be_bytes}
use rasync.Router.{Folder, Router, folder_for, add_folder, report_unknown}
use rasync.Router.Table.{add_all, folder_for-add_folder}
use mathlib.Core.List.{append_assoc}

-- `kHeaderBytes`
abbrev pub header_bytes : ℕ
header_bytes = 5

-- `proto::message`, with the body that is written behind it.
unfoldable pub message : ℕ → ℕ → Bytes → Bytes
message tag op body = Writer.raw (Writer.u8 (Writer.u32 [] tag) op) body

-- A message is dropped, is reported as one for an unknown folder, or is handed to its folder with
-- the opcode and the body.
pub data Dispatch : Type 0 where
  dropped : Dispatch
  unknown : Option Bytes → Dispatch
  handed : Folder → Bytes → ℕ → Reader → Dispatch

-- What follows the header: the folder of the tag, or a report.
unfoldable pub route : Bytes → Bytes → ℕ → ℕ → Reader → Router → Dispatch × Router
unfolding report_unknown
route from payload tag op body r =
    let (name, r') = report_unknown from tag payload r in
    elim (folder_for tag r) [ none ↦ (unknown name, r') | some f ↦ (handed f from op body, r) ]

unfoldable pub on_message : Bytes → Bytes → Router → Dispatch × Router
unfolding route
on_message from payload r =
    let (tag, r₁) = Reader.u32 (start payload) in
    let (op, r₂) = Reader.u8 r₁ in
    if r.stopped
    then (dropped, r)
    else if ltb (length payload) header_bytes
    then (dropped, r)
    else route from payload tag op r₂ r

message_bytes :
    (tag op : ℕ) (body : Bytes) → message tag op body ≡ be_bytes 4 tag ++ ((op % 256) ∷ body)
unfolding message Writer.raw Writer.u8 Writer.u32
message_bytes tag op body = append_assoc (be_bytes 4 tag) ((op % 256) ∷ []) body

header_fits :
    (tag op : ℕ) (body : Bytes)
    → ltb (length (be_bytes 4 tag ++ ((op % 256) ∷ body))) header_bytes ≡ false
header_fits tag op body =
    ground (arith, length-append (be_bytes 4 tag) ((op % 256) ∷ body), length-be_bytes 4 tag)

gate :
    (b c : Bool) (x y : Dispatch × Router)
    → b ≡ false
    → c ≡ false
    → (if b then x else if c then x else y) ≡ y
gate b c x y h k = rw (h, k) refl

routed :
    (f : Folder) (r : Router) (from : Bytes) (op : ℕ) (payload : Bytes) (r₁ r₂ : Reader)
    → r.stopped ≡ false
    → ltb (length payload) header_bytes ≡ false
    → Reader.u32 (start payload) ≡ (f.tag, r₁)
    → Reader.u8 r₁ ≡ (op, r₂)
    → folder_for f.tag r ≡ some f
    → on_message from payload r ≡ (handed f from op r₂, r)
unfolding on_message route
routed f r from op payload r₁ r₂ s l e u k =
    let first = Reader.u32 (start payload) in
    let second = Reader.u8 first.1 in
    gate r.stopped (ltb (length payload) header_bytes) (dropped, r)
      (route from payload first.0 second.0 second.1 r) s l
    ∙ ap (λ (p : ℕ × Reader). route from payload p.0 (Reader.u8 p.1).0 (Reader.u8 p.1).1 r) e
    ∙ ap (λ (q : ℕ × Reader). route from payload f.tag q.0 q.1 r) u
    ∙ rw (k, route) refl

-- Where the router runs, the folder was accepted, its tag has 32 bits and the opcode 8: whatever
-- folders are offered after it, a message under its tag is handed to it, with the sender, the opcode
-- and exactly the body.
pub on_message-message :
    (f : Folder) (r : Router) (later : List Folder) (from : Bytes) (op : ℕ) (body : Bytes)
    → (add_folder f r).0 ≡ true
    → f.tag < 2 ^ 32
    → op < 256
    → (add_all later (add_folder f r).1).stopped ≡ false
    → on_message from (message f.tag op body) (add_all later (add_folder f r).1)
      ≡ (handed f from op (start body), add_all later (add_folder f r).1)
unfolding on_message
on_message-message f r later from op body h t o s =
    let now = (add_all later (add_folder f r).1) in
    routed f now from op (message f.tag op body) (start ((op % 256) ∷ body)) (start body) s
      (rw (message_bytes f.tag op body) (header_fits f.tag op body))
      (rw (message_bytes f.tag op body) (u32-Reads f.tag t ((op % 256) ∷ body)))
      (u8-Reads op o body) (folder_for-add_folder f r later h)
