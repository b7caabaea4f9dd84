-- ===== src/Extractor/Pdf/Found.antt =====
-- What OCR finds in the pages of a PDF.
use acip_sidecar.Prelude.{
  ℕ, ◌≡◌, refl, ◌∙◌, sym, ap, Bool, true, false, ◌&&◌, Option, none, some, List, [], ◌∷◌, ◌++◌,
  append-nil, append_assoc, ok, err, is_empty, bind-ok, ok_injective, Bool-cases, inl, inr,
}
use acip_sidecar.Prelude.Sort.{sort}
use acip_sidecar.Text.{Text, text, trim, starts_with}
use acip_sidecar.Text.Order.{text_order}
use acip_sidecar.Json.{Fallible, context}
use acip_sidecar.Extractor.Pdf.{
  Output, output, Started, not_found, failed, PdfRun, ends_with, page_name, page_names, Ocr, warn,
  read_page, page_result, ocr_pages, rendered, ocr,
}

-- The name of a page's image.
abbrev pub is_page : Text → Bool
is_page n = starts_with n (text "page-") && ends_with n (text ".png")

-- The names in a directory that are pages, in the directory's order.
pub data Pages : List (Option Text) → List Text → Type 0 where
  no_entry : Pages [] []
  page :
      (n : Text) (names : List (Option Text)) (pages : List Text)
      → is_page n ≡ true
      → Pages names pages
      → Pages (some n ∷ names) (n ∷ pages)
  other :
      (n : Text) (names : List (Option Text)) (pages : List Text)
      → is_page n ≡ false
      → Pages names pages
      → Pages (some n ∷ names) pages
  no_text :
      (names : List (Option Text)) (pages : List Text)
      → Pages names pages
      → Pages (none ∷ names) pages

page_names-Pages : (names : List (Option Text)) → Pages names (page_names names)
unfolding page_names page_name
page_names-Pages [] = no_entry
page_names-Pages (none ∷ names) = no_text names _ (page_names-Pages names)
page_names-Pages (some n ∷ names) = elim (Bool-cases (is_page n)) [
  | inl e ↦ rw e (page n names _ e (page_names-Pages names))
  | inr e ↦ rw e (other n names _ e (page_names-Pages names))
]

module _ (run : PdfRun) (dpi : ℕ) where
  -- The text of the images of pages: that of each page which tesseract reads and which is not blank,
  -- with a newline after it. Where there is no tesseract, the text ends.
  pub data Texts : List Text → Text → Type 0 where
    no_image : Texts [] []
    not_installed :
        (img : Text) (images : List Text)
        → run.tesseract img dpi ≡ not_found
        → Texts (img ∷ images) []
    unread :
        (img : Text) (images : List Text) (out : Output) (t : Text)
        → run.tesseract img dpi ≡ output out
        → out.success ≡ false
        → Texts images t
        → Texts (img ∷ images) t
    blank :
        (img : Text) (images : List Text) (out : Output) (t : Text)
        → run.tesseract img dpi ≡ output out
        → out.success ≡ true
        → is_empty (trim (run.from_utf8_lossy out.stdout)) ≡ true
        → Texts images t
        → Texts (img ∷ images) t
    read :
        (img : Text) (images : List Text) (out : Output) (t : Text)
        → run.tesseract img dpi ≡ output out
        → out.success ≡ true
        → is_empty (trim (run.from_utf8_lossy out.stdout)) ≡ false
        → Texts images t
        → Texts (img ∷ images) ((run.from_utf8_lossy out.stdout ++ text "\n") ++ t)

  -- The text that a loop over images has added.
  abbrev Added : List Text → Ocr → Ocr → Type 0
  Added images o o' = (t : Text) × Texts images t × (o'.ocr_text ≡ o.ocr_text ++ t)

  -- One page, with what the pages after it add.
  started-Added :
      (img : Text) (images : List Text)
      → ((o o' : Ocr) → ocr_pages run dpi images o ≡ ok o' → Added images o o')
      → (o o' : Ocr) (s : Started) → run.tesseract img dpi ≡ s
      → page_result run (ocr_pages run dpi images) s o ≡ ok o'
      → Added (img ∷ images) o o'
  unfolding page_result read_page warn
  started-Added img images rest o o' not_found e h = (
    [],
    not_installed img images e,
    ap (λ (x : Ocr). x.ocr_text) (sym (ok_injective h)) ∙ sym (append-nil o.ocr_text),
  )
  started-Added img images rest o o' (failed m) e h = absurd (cc)
  started-Added img images rest o o' (output out) e h = elim (Bool-cases out.success) [
    | inr f ↦
        let (t, texts, same) = rest _ o' (rw f at h) in (t, unread img images out t e f texts, same)
    | inl good ↦ elim (Bool-cases (is_empty (trim (run.from_utf8_lossy out.stdout)))) [
      | inl b ↦
          let (t, texts, same) = rest o o' (rw (good, b) at h) in
          (t, blank img images out t e good b texts, same)
      | inr f ↦
          let (t, texts, same) = rest _ o' (rw (good, f) at h) in
          (
            (run.from_utf8_lossy out.stdout ++ text "\n") ++ t,
            read img images out t e good f texts,
            same ∙ append_assoc o.ocr_text _ t,
          )
    ]
  ]

  ocr_pages-Added :
      (images : List Text) (o o' : Ocr) → ocr_pages run dpi images o ≡ ok o' → Added images o o'
  unfolding ocr_pages
  ocr_pages-Added [] o o' h = (
    [],
    no_image,
    ap (λ (x : Ocr). x.ocr_text) (sym (ok_injective h)) ∙ sym (append-nil o.ocr_text),
  )
  ocr_pages-Added (img ∷ images) o o' h =
      started-Added img images (λ p q k. ocr_pages-Added images p q k) o o' (run.tesseract img dpi)
        refl h

-- What OCR found: nothing where the pages could not be rendered, else the text of their images in the
-- order of their names.
pub data Found (run : PdfRun) (max_pages dpi : ℕ) (t : Text) : Type 0 where
  not_rendered : run.pdftoppm max_pages dpi ≡ ok false → t ≡ [] → Found run max_pages dpi t
  in_pages :
      run.pdftoppm max_pages dpi ≡ ok true
      → (names : List (Option Text)) (pages : List Text) → run.read_dir ≡ ok names
      → Pages names pages
      → Texts run dpi (sort text_order pages) t
      → Found run max_pages dpi t

pub context-ok : {A : Type 0} (r : Fallible A) (c : Text) (a : A) → context r c ≡ ok a → r ≡ ok a
context-ok (ok x) c a h = h
context-ok (err e) c a h = absurd (cc)

module _ (run : PdfRun) (max_pages dpi : ℕ) where
  rendered-Found :
      (success : Bool) (o o' : Ocr)
      → run.pdftoppm max_pages dpi ≡ ok success
      → o.ocr_text ≡ []
      → rendered run dpi o success ≡ ok o'
      → Found run max_pages dpi o'.ocr_text
  unfolding rendered warn
  rendered-Found false o o' e none_yet h =
      not_rendered e (ap (λ (x : Ocr). x.ocr_text) (sym (ok_injective h)) ∙ none_yet)
  rendered-Found true o o' e none_yet h =
      let (names, listed, h) = bind-ok (context run.read_dir (text "read tempdir")) _ o' h in
      let (t, texts, same) = ocr_pages-Added run dpi (sort text_order (page_names names)) o o' h in
      in_pages e names (page_names names) (context-ok run.read_dir _ names listed)
        (page_names-Pages names) (rw (same, none_yet) texts)

  pub ocr-Found :
      (o o' : Ocr)
      → o.ocr_text ≡ []
      → ocr run max_pages dpi o ≡ ok o'
      → Found run max_pages dpi o'.ocr_text
  unfolding ocr warn
  ocr-Found o o' none_yet h =
      let (success, ran, h) =
        bind-ok (context (run.pdftoppm max_pages dpi) (text "run pdftoppm")) _ o' h in
      rendered-Found success _ o' (context-ok _ _ success ran) none_yet h
