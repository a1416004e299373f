-- ===== src/Adapters/PyMuPdf.antt =====
-- `PyMuPDFParserProvider` (app/infrastructure/parsers/pymupdf_parser.py). The library is a parameter.
use cortex_rag.Base.{
  ℕ, ◌≡◌, refl, ap, ◌∙◌, false, Option, none, some, List, [], ◌∷◌, ◌++◌, arith, ◌==◌, if◌then◌else◌,
  nat_eq, Text, text_eq,
}
use cortex_rag.Exec.{Result, ok, and_then}
use cortex_rag.Vector.{ParsedDocument}
use cortex_rag.World.{Bytes}
use cortex_rag.Chat.Answer.{join}
use cortex_rag.Base.Str.{is_empty}
use cortex_rag.Repo.Sql.{exists}

-- What `fitz.open` gives of a file: the texts of its pages, its page count and its metadata, which may
-- be None.
pub record PdfDocument : Type 0 where
  pub pages : List Text
  pub page_count : ℕ
  pub metadata : Option (List (Text × Option Text))

abbrev keep_entry : Text → Option Text → List (Text × Text) → List (Text × Text)
keep_entry k none rest = rest
keep_entry k (some v) rest = if is_empty v then rest else (k, v) ∷ rest

-- `{k: str(v) for k, v in items if v}`
unfoldable pub kept_metadata : List (Text × Option Text) → List (Text × Text)
kept_metadata [] = []
kept_metadata ((k, v) ∷ items) = let rest = kept_metadata items in keep_entry k v rest

abbrev items_of : Option (List (Text × Option Text)) → List (Text × Option Text)
items_of none = []
items_of (some items) = items

-- The form feed.
abbrev pub page_break : ℕ
page_break = 12

-- `_parse_sync`, with what `fitz.open` gives or raises.
unfoldable pub parse_pdf : (Bytes → Result PdfDocument) → Bytes → Result ParsedDocument
unfolding kept_metadata join
parse_pdf open_pdf content = and_then (open_pdf content) (λ doc. ok (record {
  parsed_text = join (page_break ∷ []) doc.pages;
  page_count = doc.page_count;
  metadata = kept_metadata (items_of doc.metadata);
}))

-- `parse`: the content type is not looked at.
abbrev pub parse : (Bytes → Result PdfDocument) → Bytes → Text → Result ParsedDocument
parse open_pdf content content_type = parse_pdf open_pdf content

abbrev prepend : ℕ → List Text → List Text
prepend c [] = (c ∷ []) ∷ []
prepend c (w ∷ ws) = (c ∷ w) ∷ ws

-- `text.split("\f")`
unfoldable pub split_pages : Text → List Text
split_pages [] = [] ∷ []
split_pages (c ∷ s) = let ws = split_pages s in if c == page_break then [] ∷ ws else prepend c ws

-- No page has a form feed of its own.
abbrev pub AreUnbroken : List Text → Type 0
AreUnbroken [] = Unit
AreUnbroken (p ∷ ps) = (exists (λ c. c == page_break) p ≡ false) × AreUnbroken ps

split_pages-single : (p : Text) → exists (λ c. c == page_break) p ≡ false → split_pages p ≡ p ∷ []
unfolding split_pages exists
split_pages-single [] h = refl
split_pages-single (c ∷ p) h = ground (arith, split_pages-single p)

split_pages-append :
    (p rest : Text)
    → exists (λ c. c == page_break) p ≡ false
    → split_pages (p ++ (page_break ∷ rest)) ≡ p ∷ split_pages rest
unfolding split_pages exists
split_pages-append [] rest h = ground arith
split_pages-append (c ∷ p) rest h = ground (arith, split_pages-append p rest)

split_pages-join :
    (p : Text) (ps : List Text)
    → AreUnbroken (p ∷ ps)
    → split_pages (join (page_break ∷ []) (p ∷ ps)) ≡ p ∷ ps
unfolding join
split_pages-join p [] h = split_pages-single p h.0
split_pages-join p (q ∷ ps) h =
    split_pages-append p (join (page_break ∷ []) (q ∷ ps)) h.0
    ∙ ap (λ ws. p ∷ ws) (split_pages-join q ps h.1)

-- A file that opens, with pages that have no form feed of their own, is parsed: its text splits at the
-- form feeds into the texts of the pages, in order, and its page count is the file's.
pub split_pages-parse :
    (open_pdf : Bytes → Result PdfDocument) (content : Bytes) (content_type : Text)
    (doc : PdfDocument) (first_page : Text) (more : List Text)
    → open_pdf content ≡ ok doc
    → doc.pages ≡ first_page ∷ more
    → AreUnbroken (first_page ∷ more)
    → (parsed : ParsedDocument) × (parse open_pdf content content_type ≡ ok parsed)
      × (split_pages parsed.parsed_text ≡ doc.pages)
      × (parsed.page_count ≡ doc.page_count)
unfolding parse_pdf
split_pages-parse open_pdf content content_type doc first_page more opened pages unbroken = (
  record {
    parsed_text = join (page_break ∷ []) doc.pages;
    page_count = doc.page_count;
    metadata = kept_metadata (items_of doc.metadata);
  },
  rw opened refl,
  rw pages (split_pages-join first_page more unbroken),
  refl,
)
