-- ===== src/Mux/ReadDirReplies.antt =====
-- mux_v4.go: READDIR adds one reply, with the status it gives.
use nfs4go.Common.{
  ℕ, ◌+◌, ◌%◌, ◌^◌, Bool, true, false, List, [], ◌∷◌, Option, none, some, Error, eof, Result, ok,
  err, panic, stuck,
}
use nfs4go.Auth.{Creds}
use nfs4go.Attrs.Bitmap.{Bitmap}
use nfs4go.Vfs.{Vfs}
use nfs4go.Worker.State.{Lister, Worker}
use nfs4go.Worker.Listers.{add_lister}
use nfs4go.Xdr.Layout.{Val}
use nfs4go.Msg.Types.{f_attr4}
use nfs4go.Mux.State.{FileHandle, Request, World, look_at_clock}
use nfs4go.Mux.Files.{Files, Body}
use nfs4go.Mux.ReadDir.{
  Listed, readdir_reply, adds_lister, found_listing, gets_stored, gets_lister, listing_of,
  entry_attrs, entry_of, take_entry, lists, closes_lister, ends_list, listed_at, lists_at, read_dir,
}
use nfs4go.Mux.Bodies.{Handles, Replies, bind-BodyAnswers, asked-Replies, if-Replies}
use nfs4go.Mux.FileHandlers.{bodies}

module _ (v : Vfs) where
  readdir_reply-Replies :
      (verf : ℕ) (entries : _) (is_end : Bool) → Replies (readdir_reply {v = v} verf entries is_end)
  unfolding readdir_reply
  readdir_reply-Replies verf entries is_end = search bodies

  adds_lister-Replies :
      (listing : v.Listing) (next : ℕ → Body v)
      → ((index : ℕ) → Replies (next index))
      → Replies (adds_lister listing next)
  unfolding adds_lister Replies
  adds_lister-Replies listing next a h st f =
      bind-BodyAnswers (look_at_clock st.world) st.out _ λ (seen : ℕ × World (Files v)).
        bind-BodyAnswers (add_lister listing seen.0 seen.1.draws h.worker) st.out _
          λ (added : ℕ × List ℕ × Worker v).
            a added.0 _ (record st { world = record seen.1 { draws = added.1 } }) f

  found_listing-Replies :
      (l : Option (v.Listing)) (found : v.Listing → Body v) (missing : Body v)
      → ((l : v.Listing) → Replies (found l))
      → Replies missing
      → Replies (found_listing l found missing)
  unfolding found_listing
  found_listing-Replies none found missing a b = b
  found_listing-Replies (some l) found missing a b = a l

  gets_stored-Replies :
      (index : ℕ) (l : Option (Lister v)) (found : v.Listing → Body v) (missing : Body v)
      → ((l : v.Listing) → Replies (found l))
      → Replies missing
      → Replies (gets_stored index l found missing)
  unfolding gets_stored Replies
  gets_stored-Replies index none found missing a b h st f = b h st f
  gets_stored-Replies index (some l) found missing a b h st f =
      bind-BodyAnswers (look_at_clock st.world) st.out _ λ (seen : ℕ × World (Files v)).
        found_listing-Replies _ found missing a b _ (record st { world = seen.1 }) f

  gets_lister-Replies :
      (index : ℕ) (found : v.Listing → Body v) (missing : Body v)
      → ((l : v.Listing) → Replies (found l))
      → Replies missing
      → Replies (gets_lister index found missing)
  unfolding gets_lister Replies
  gets_lister-Replies index found missing a b h st f =
      gets_stored-Replies index _ found missing a b h st f

  listing_of-Replies :
      (cookie verf : ℕ) (current : FileHandle) (next : v.Listing → ℕ → Body v)
      → ((l : v.Listing) (verf : ℕ) → Replies (next l verf))
      → Replies (listing_of cookie verf current next)
  unfolding listing_of
  listing_of-Replies cookie verf current next a =
      search (bodies, readdir_reply-Replies, adds_lister-Replies, gets_lister-Replies) depth 14

  entry_attrs-Replies :
      (request : Bitmap) (creds : Creds) (fh : List ℕ) (info : v.Info) (error : Option Error)
      → (next : Val f_attr4 → Body v) → ((attrs : Val f_attr4) → Replies (next attrs))
      → Replies (entry_attrs request creds fh info error next)
  unfolding entry_attrs Replies
  entry_attrs-Replies request creds fh info error next a h st f =
      bind-BodyAnswers _ st.out _ (λ attrs. a attrs h st f)

  entry_of-Replies :
      (request : Bitmap) (creds : Creds) (current : FileHandle) (info : v.Info)
      → (next : Val f_attr4 → Body v) → ((attrs : Val f_attr4) → Replies (next attrs))
      → Replies (entry_of request creds current info next)
  unfolding entry_of
  entry_of-Replies request creds current info next a = search (bodies, entry_attrs-Replies) depth 14

  lists-Replies :
      (request : Bitmap) (creds : Creds) (current : FileHandle) (cookie : ℕ) (infos : List (v.Info))
      → (l : Listed) (next : Bool → Listed → Body v)
      → ((stopped : Bool) (l : Listed) → Replies (next stopped l))
      → Replies (lists request creds current cookie infos l next)
  unfolding lists
  lists-Replies request creds current cookie [] l next a = a false l
  lists-Replies request creds current cookie (info ∷ rest) l next a =
      entry_of-Replies request creds current info _ λ attrs.
        let taken : Bool × Listed = take_entry (cookie, (v.name info, (attrs, tt))) l in
        if-Replies taken.0 _ _ (a true taken.1)
          (lists-Replies request creds current ((cookie + 1) % 2 ^ 64) rest taken.1 next a)

  closes_lister-Replies :
      (index : ℕ) (good : Body v) (bad : Error → Body v)
      → Replies good
      → ((e : Error) → Replies (bad e))
      → Replies (closes_lister index good bad)
  unfolding closes_lister Replies
  closes_lister-Replies index good bad a b h st f =
      asked-Replies _ (λ _. good) bad (λ _. a) b _ st f

  ends_list-Replies :
      (verf : ℕ) (r : Result (Unit {0})) (stopped : Bool) (l : Listed)
      → Replies (ends_list {v = v} verf r stopped l)
  unfolding ends_list
  ends_list-Replies verf r stopped l =
      search (bodies, readdir_reply-Replies, closes_lister-Replies) depth 12

  listed_at-Replies :
      (r : Result (Unit {0})) (next : Body v) → Replies next → Replies (listed_at r next)
  unfolding listed_at
  listed_at-Replies (ok _) next a = a
  listed_at-Replies (err eof) next a = a
  listed_at-Replies (err e) next a = search bodies
  listed_at-Replies panic next a = search bodies
  listed_at-Replies stuck next a = search bodies

  lists_at-Replies :
      (listing : v.Listing) (offset : ℕ) (next : List (v.Info) → Result (Unit {0}) → Body v)
      → ((infos : List (v.Info)) (r : Result (Unit {0})) → Replies (next infos r))
      → Replies (lists_at listing offset next)
  unfolding lists_at Replies
  lists_at-Replies listing offset next a h st f = listed_at-Replies _ _ (a _ _) h _ f

module _ (v : Vfs) (key : List ℕ) (req : Request) where
  pub read_dir-Handles : Handles (read_dir {v = v} key req)
  unfolding read_dir
  read_dir-Handles =
      search (bodies, listing_of-Replies, lists_at-Replies, lists-Replies, ends_list-Replies) depth
        16
