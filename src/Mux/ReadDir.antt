-- ===== src/Mux/ReadDir.antt =====
-- mux_v4.go: READDIR.
use nfs4go.Common.{
  ℕ, ◌+◌, ◌-◌, ◌%◌, ◌^◌, Bool, true, false, not, ltb, ◌==◌, List, [], ◌∷◌, ◌++◌, length, Option,
  none, some, if◌then◌else◌, Error, eof, Result, ok, err, panic, stuck, ◌>>=◌,
}
use nfs4go.Common.Int.{int64}
use nfs4go.Auth.{Creds}
use nfs4go.Attrs.Bitmap.{Bitmap, bitmap4_decode}
use nfs4go.Attrs.Encode.{About, file_info_to_attrs}
use nfs4go.Vfs.{Vfs}
use nfs4go.Common.Assoc.{lookup}
use nfs4go.Worker.State.{Lister}
use nfs4go.Worker.Listers.{add_lister, get_lister, close_lister, eof_lister}
use nfs4go.Xdr.Layout.{Val, Vals, ◌▸◌, end, uint64, text}
use nfs4go.Xdr.Codec.{marshal}
use nfs4go.Msg.Types.{f_attr4, entry4}
use nfs4go.Msg.Args.{readdir4args}
use nfs4go.Msg.Replies.{readdir4resok}
use nfs4go.Msg.Ops.{op_lookup, op_readdir}
use nfs4go.Msg.Status.{nfs4_ok, not_same, err2status}
use nfs4go.Mux.State.{FileHandle, Request, Handler, look_at_clock}
use nfs4go.Mux.Files.{
  Files, Body, reads, need_current, with_fs, ask, asked, fail, reply, plain_reply, remembers,
  discards, with_disk,
}

-- `SizeOf` of what `Marshal` gives; without bytes the size is 0.
unfoldable pub marshal_size : Result (List ℕ) → ℕ
marshal_size (ok bs) = length bs % 2 ^ 32
marshal_size _ = 0

-- `args.Cookie - 1000`, or 0 at the start.
unfoldable pub offset_of : ℕ → ℕ
offset_of cookie = if cookie == 0 then 0 else (cookie + 2 ^ 64 - 1000) % 2 ^ 64

-- What the loop keeps: the room that is left, and the entries in their order.
pub record Listed : Type 0 where
  pub dir_count : ℕ
  pub max_count : ℕ
  pub entries : List (Vals entry4)

-- The end of one round: the entry is taken, and whether the loop stops after it.
unfoldable pub take_entry : Vals entry4 → Listed → Bool × Listed
unfolding marshal marshal_size
take_entry (cookie, (name, (attrs, _))) l =
    let l' = record l { entries = l.entries ++ (cookie, (name, (attrs, tt))) ∷ [] } in
    let size = marshal_size (marshal (uint64 ▸ text ▸ end) (cookie, (name, tt))) in
    let full =
      (marshal_size (marshal (uint64 ▸ text ▸ f_attr4 ▸ end) (cookie, (name, (attrs, tt)))) + 4)
      % 2 ^ 32 in
    if ltb l.dir_count size
    then (true, l')
    else (if ltb l.max_count ((full + 128) % 2 ^ 32)
        then (true, record l' { dir_count = l.dir_count - size })
        else (false, record l' { dir_count = l.dir_count - size; max_count = l.max_count - full }))

-- `errors.Is(err, io.EOF)` after a loop that ran to its end.
unfoldable pub at_end : Bool → Result (Unit {0}) → Bool
at_end stopped (err eof) = not stopped
at_end stopped _ = false

module _ {v : Vfs} where
  unfoldable pub readdir_reply : ℕ → List (Vals entry4) → Bool → Body v
  unfolding reply
  readdir_reply cookie_verf entries is_end =
      reply op_readdir nfs4_ok (readdir4resok ▸ end)
        ((cookie_verf, ((entries, (is_end, tt)), tt)), tt)

  -- `fs.AddLister`; the clock is looked at once the index is found.
  unfoldable pub adds_lister : v.Listing → (ℕ → Body v) → Body v
  adds_lister listing next h st = do
    (now, world) ← look_at_clock st.world
    (index, draws, w) ← add_lister listing now world.draws h.worker
    next index (record h { worker = w }) (record st { world = record world { draws = draws } })

  unfoldable pub found_listing : Option (v.Listing) → (v.Listing → Body v) → Body v → Body v
  found_listing none found missing = missing
  found_listing (some l) found missing = found l

  unfoldable pub gets_stored : ℕ → Option (Lister v) → (v.Listing → Body v) → Body v → Body v
  unfolding found_listing
  gets_stored index none found missing h st = missing h st
  gets_stored index (some l) found missing h st = do
    (now, world) ← look_at_clock st.world
    let got = get_lister index now h.worker
    found_listing got.0 found missing (record h { worker = got.1 }) (record st { world = world })

  -- `fs.GetLister`; the clock is looked at only if there is such a lister.
  unfoldable pub gets_lister : ℕ → (v.Listing → Body v) → Body v → Body v
  unfolding gets_stored
  gets_lister index found missing h st =
      gets_stored index (lookup index h.worker.listers) found missing h st

  unfoldable pub listing_of : ℕ → ℕ → FileHandle → (v.Listing → ℕ → Body v) → Body v
  unfolding ask fail adds_lister gets_lister readdir_reply
  listing_of cookie cookie_verf current next =
      if cookie == 0
      then ask (λ fs. v.list fs current.path) (λ listing. adds_lister listing (next listing))
          (fail op_readdir)
      else (if cookie_verf == eof_lister
          then readdir_reply cookie_verf [] true
          else gets_lister cookie_verf (λ listing. next listing cookie_verf)
              (plain_reply op_readdir not_same))

  abbrev about : Creds → List ℕ → v.Info → Option Error → ℕ → About v
  about creds fh info error session_id = record {
    fh = fh;
    info = info;
    error = error;
    creds = creds;
    session_id = session_id;
  }

  unfoldable pub entry_attrs :
      Bitmap → Creds → List ℕ → v.Info → Option Error → (Val f_attr4 → Body v) → Body v
  unfolding file_info_to_attrs
  entry_attrs request creds fh info error next h st = do
    attrs ← file_info_to_attrs (some request) (about creds fh info error h.worker.session_id)
    next attrs h st

  -- The handle of an entry is remembered; without one the entry tells the error.
  unfoldable pub entry_of : Bitmap → Creds → FileHandle → v.Info → (Val f_attr4 → Body v) → Body v
  unfolding ask remembers entry_attrs
  entry_of request creds current info next =
      let path = v.join current.path (v.name info) in
      ask (λ fs. v.handle fs path)
        (λ fh.
          remembers fh (record { path = path; info = info })
            (entry_attrs request creds fh info none next))
        (λ e. entry_attrs request creds [] info (some e) next)

  -- The loop over the entries, the first of which has the cookie `cookie`.
  unfoldable pub lists :
      Bitmap → Creds → FileHandle → ℕ → List (v.Info) → Listed → (Bool → Listed → Body v) → Body v
  unfolding entry_of take_entry
  lists request creds current cookie [] l next = next false l
  lists request creds current cookie (info ∷ rest) l next =
      entry_of request creds current info λ attrs.
        let taken = take_entry (cookie, (v.name info, (attrs, tt))) l in
        let more = lists request creds current ((cookie + 1) % 2 ^ 64) rest taken.1 next in
        if taken.0 then next true taken.1 else more

  unfoldable pub closes_lister : ℕ → Body v → (Error → Body v) → Body v
  unfolding asked
  closes_lister index good bad h st =
      let (r, w, disk) = close_lister index h.worker st.world.files.disk in
      asked (r, disk) (λ _. good) bad (record h { worker = w }) st

  unfoldable pub ends_list : ℕ → Result (Unit {0}) → Bool → Listed → Body v
  unfolding at_end closes_lister readdir_reply
  ends_list cookie_verf r stopped l =
      if at_end stopped r
      then closes_lister cookie_verf (readdir_reply eof_lister l.entries true)
          (λ e. plain_reply op_readdir (err2status e))
      else readdir_reply cookie_verf l.entries false

  unfoldable pub listed_at : Result (Unit {0}) → Body v → Body v
  unfolding discards
  listed_at (ok _) next = next
  listed_at (err eof) next = next
  listed_at (err e) next = discards (plain_reply op_readdir (err2status e))
  listed_at panic next = λ h st. panic
  listed_at stuck next = λ h st. stuck

  -- `lister.ListAt` with room for 128 entries.
  unfoldable pub lists_at : v.Listing → ℕ → (List (v.Info) → Result (Unit {0}) → Body v) → Body v
  unfolding listed_at
  lists_at listing offset next h st =
      let ((infos, r), disk) = v.list_at listing 128 (int64 offset) st.world.files.disk in
      listed_at r (next infos r) h (with_disk st disk)

module _ {v : Vfs} (client_key : List ℕ) (req : Request) where
  -- Without a current handle the reply has the number of LOOKUP, as in the code.
  unfoldable pub read_dir : Handler (Files v)
  unfolding reads need_current with_fs listing_of lists_at lists ends_list offset_of bitmap4_decode
  read_dir =
      reads readdir4args λ (cookie, (cookie_verf, (dir_count, (max_count, (attr_request, _))))).
        need_current op_lookup λ current. with_fs client_key req (
          listing_of cookie cookie_verf current λ listing verf.
            lists_at listing (offset_of cookie) λ infos r.
              lists (bitmap4_decode attr_request) req.creds current
                ((offset_of cookie + 1000 + 1) % 2 ^ 64) infos
                (record { dir_count = dir_count; max_count = max_count; entries = [] })
                (ends_list verf r))
