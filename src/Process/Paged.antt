-- ===== src/Process/Paged.antt =====
-- crates/executor-process/src/editing.rs: the pages of a file, read one after the other.
use nausicaa.Prelude.{
  ℕ, zero, suc, ◌+◌, ◌<◌, ◌≤◌, ◌≡◌, refl, sym, ap, ◌∙◌, String, false, Option, none, some, ok, err,
  arith, byte_len, ltb, if◌then◌else◌, Bool-cases, inl, inr, min,
}
use Prim.Native.String.{◌++◌}
use nausicaa.Process.Pages.{Page, back, page_of}
use nausicaa.Process.Slices.{
  byte_len-append, append_assoc, append-nil, append_nil, empty-byte_len,
  is_char_boundary-append_len, back-append, back-cut, back-progress, slice-cut,
}

-- a page that begins at a cut of the text ends at another one
pub page_of-cut :
    (before after : String) (limit : ℕ)
    → 4 ≤ limit
    → (mid : String) × (rest : String) × (after ≡ mid ++ rest)
      × (byte_len mid ≤ limit)
      × (min 1 (byte_len after) ≤ byte_len mid)
      × (page_of (before ++ after) (byte_len before) limit
          ≡ ok (record {
            content = mid;
            offset = byte_len before;
            next_offset =
                if ltb (byte_len (before ++ mid)) (byte_len (before ++ after))
                then some (byte_len (before ++ mid))
                else none;
            total_bytes = byte_len (before ++ after);
          }))
unfolding page_of
page_of-cut before after limit h =
    let k = min limit (byte_len after) in
    let (mid, rest, p, q, r) = back-cut after k in
    let end : back (before ++ after) (min (byte_len before + limit) (byte_len (before ++ after)))
        ≡ byte_len (before ++ mid) =
      back-append before after k (min (byte_len before + limit) (byte_len (before ++ after)))
        (omega (arith, byte_len-append before after))
      ∙ (ap (λ n. byte_len before + n) q ∙ sym (byte_len-append before mid)) in
    let low : ltb limit 4 ≡ false = ground (arith, h) in
    let inside : ltb (byte_len (before ++ after)) (byte_len before) ≡ false =
      ground (arith, byte_len-append before after) in
    let cut = slice-cut before after mid rest p in
    let moved : min 1 (byte_len after) ≤ byte_len mid =
      omega (arith, back-progress after k (omega (arith, h)), q) in
    (
      mid,
      rest,
      p,
      omega (arith, r),
      moved,
      rw (low, inside, is_char_boundary-append_len before after, end, cut) refl,
    )

-- a client that follows `next_offset`, and keeps what it reads
unfoldable pub follow : ℕ → String → ℕ → ℕ → Option String
follow zero content limit offset = none
follow (suc fuel) content limit offset = elim (page_of content offset limit) [
  | err e ↦ none
  | ok page ↦ elim page.next_offset [
    | none ↦ some page.content
    | some next ↦ elim (follow fuel content limit next) [
      | none ↦ none
      | some rest ↦ some (page.content ++ rest)
    ]
  ]
]

follow-next :
    (fuel : ℕ) (content rest : String) (limit offset next : ℕ) (page : Page)
    → page_of content offset limit ≡ ok page
    → page.next_offset ≡ some next
    → follow fuel content limit next ≡ some rest
    → follow (suc fuel) content limit offset ≡ some (page.content ++ rest)
unfolding follow
follow-next fuel content rest limit offset next page h n r = rw (follow, h, n, r) refl

follow-last :
    (fuel : ℕ) (content : String) (limit offset : ℕ) (page : Page)
    → page_of content offset limit ≡ ok page
    → page.next_offset ≡ none
    → follow (suc fuel) content limit offset ≡ some page.content
unfolding follow
follow-last fuel content limit offset page h n = rw (follow, h, n) refl

follow-cut :
    (fuel : ℕ) (before after : String) (limit : ℕ)
    → 4 ≤ limit
    → byte_len after < fuel
    → follow fuel (before ++ after) limit (byte_len before) ≡ some after
unfolding follow
follow-cut zero before after limit h enough = absurd (omega (arith, enough))
follow-cut (suc fuel) before after limit h enough =
    let (mid, rest, p, b, m, page) = page_of-cut before after limit h in
    let total = byte_len-append before after in
    let read = byte_len-append before mid in
    let length_of : byte_len after ≡ byte_len mid + byte_len rest =
      ap byte_len p ∙ byte_len-append mid rest in
    elim (Bool-cases (ltb (byte_len (before ++ mid)) (byte_len (before ++ after)))) [
      | inl more ↦
          let whole : before ++ after ≡ (before ++ mid) ++ rest =
            ap (λ t. before ++ t) p ∙ sym (append_assoc before mid rest) in
          let next : follow fuel (before ++ after) limit (byte_len (before ++ mid)) ≡ some rest =
            ap (λ t. follow fuel t limit (byte_len (before ++ mid))) whole
            ∙ follow-cut fuel (before ++ mid) rest limit h
                (ground (arith, enough, length_of, m, total, read, more)) in
          follow-next fuel (before ++ after) rest limit (byte_len before) (byte_len (before ++ mid))
            _ page (ap (λ b. if b then some (byte_len (before ++ mid)) else none) more) next
          ∙ ap (λ t. some t) (sym p)
      | inr last ↦
          let done : rest ≡ String.[] =
            empty-byte_len rest (ground (arith, length_of, total, read, last)) in
          follow-last fuel (before ++ after) limit (byte_len before) _ page
            (ap (λ b. if b then some (byte_len (before ++ mid)) else none) last)
          ∙ (ap (λ t. some t) (sym (append-nil mid) ∙ (ap (λ t. mid ++ t) (sym done) ∙ sym p)))
    ]

-- Reading a file page by page from the start, with a limit of at least four bytes, and following
-- each page's next offset, ends after at most as many pages as the content has bytes, and one, and
-- gives the content exactly: no page fails.
pub follow-all :
    (content : String) (limit : ℕ)
    → 4 ≤ limit
    → follow (suc (byte_len content)) content limit 0 ≡ some content
unfolding byte_len
follow-all content limit h =
    ap (λ t. follow (suc (byte_len content)) t limit 0) (sym (append_nil content))
    ∙ follow-cut (suc (byte_len content)) String.[] content limit h (omega arith)
