-- ===== src/Api/Durable/Held.antt =====
-- What the calls of the daemon do to a content that S3 has, or that a marked file has.
use proxs.Prelude.{
  ap, ◌≡◌, refl, sym, ap, ◌∙◌, subst, inl, inr, Bool, true, Option, none, some, arith, Bool-cases,
  Option-cases, nat_eq, list_eq, Text,
}
use proxs.Host.{Node, Host, FileInfo, stat, read_file, open_file, file, dir}
use proxs.Host.Laws.{IsWritable}
use proxs.S3client.Library.{Sdk, IsLawful}
use proxs.S3client.{put_object}
use proxs.S3client.Laws.{put_object-whole}
use proxs.Cache.Meta.{MetaJson}
use proxs.Cache.Paths.{IsEntry}
use proxs.Cache.Entry.{FileCache, path, meta_path, get_meta}
use proxs.Cache.Eviction.{only_copy}
use proxs.Cache.Kept.{Kept}
use proxs.Api.Resync.{resync_file, resync_upload}
use proxs.Api.Durable.{Fits, Holds, IsMark, IsMarked, IsSent}
use proxs.Api.Durable.Marks.{marked_told}

module _ ⦃json : MetaJson⦄ ⦃sdk : Sdk⦄ (laws : IsLawful sdk) (fc : FileCache)
    (storage key c : Text) where
  abbrev Sent : sdk.State → Type 0
  Sent = IsSent laws fc storage key c

  abbrev Pends : Host → Type 0
  Pends = IsMarked laws fc storage key c

  pub Holds-Fits : (n : Option Node) → Holds c n → Fits c n
  Holds-Fits none k = tt
  Holds-Fits (some (file f)) k = k
  Holds-Fits (some dir) k = k

  pub Fits-read :
      (h : Host) (body : Text)
      → Fits c (h.fs (path fc storage key))
      → read_file h (path fc storage key) ≡ some body
      → body ≡ c
  unfolding read_file
  Fits-read h body f r = ground arith

  pub put_object-Sent :
      (body : Text) (b : sdk.State) → body ≡ c → Sent b → Sent (put_object key body b).1
  put_object-Sent body b same p = elim (put_object-whole laws key body b) [
    | inl new ↦ new ∙ ap some same
    | inr old ↦ old ∙ p
  ]

  pub Kept-Pends : (h h' : Host) → Kept fc storage key h h' → Pends h → Pends h'
  Kept-Pends h h' k p = record {
    held = subst (Holds c) (sym k.content) p.held;
    mark = subst (IsMark laws fc storage key) (sym k.current) p.mark;
  }

  resync_upload-Sent :
      (h : Host) (b : sdk.State)
      → Fits c (h.fs (path fc storage key))
      → Sent b
      → Sent (resync_upload fc storage key h b).2
  unfolding resync_upload
  resync_upload-Sent h b f p = elim (Bool-cases (h.denied open_file (path fc storage key))) [
    | inl d ↦ rw (resync_upload, d) p
    | inr a ↦ elim (Option-cases (stat h (path fc storage key))) [
      | inl gone ↦ rw (resync_upload, a, gone) p
      | inr (info, there) ↦ elim (Option-cases (read_file h (path fc storage key))) [
        | inl unread ↦ rw (resync_upload, a, there, unread) p
        | inr (body, read) ↦
            let after = put_object-Sent body b (Fits-read h body f read) p in
            elim (Option-cases (put_object key body b).0) [
              | inl lost ↦ rw (resync_upload, a, there, read, lost) after
              | inr (etag, put) ↦ rw (resync_upload, a, there, read, put) after
            ]
      ]
    ]
  ]

  pub resync_file-Sent :
      (force in_use : Bool) (info : FileInfo) (h : Host) (b : sdk.State)
      → Fits c (h.fs (path fc storage key))
      → Sent b
      → Sent (resync_file fc storage key force in_use info h b).2
  unfolding resync_file
  resync_file-Sent force in_use info h b f p = ground (arith, p, resync_upload-Sent h b f p)

  pub unsent_copy :
      (h : Host)
      → IsEntry storage key
      → IsWritable h (meta_path fc storage key)
      → Pends h
      → only_copy (get_meta fc storage key h) ≡ true
  unfolding only_copy
  unsent_copy h e w p =
      let t = marked_told laws fc storage key c e h w p in rw (t.read, t.pends) refl
