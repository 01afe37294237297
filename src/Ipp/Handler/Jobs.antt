-- ===== src/Ipp/Handler/Jobs.antt =====
-- services/ipp: the request to print a job.
use honeytrap.Base.{
  ℕ, ◌≡◌, ◌⊎◌, inl, inr, refl, arith, Bool, true, false, List, [], ◌∷◌, ◌++◌, ◌==◌, if◌then◌else◌,
  some, ap, ◌∙◌,
}
use honeytrap.Base.Bytes.{All}
use Prim.Native.String.{String}
use honeytrap.Base.Text.{Text, text_eq, codes}
use honeytrap.Base.Run.{Run, returns, panics}
use honeytrap.Ipp.Values.{Value, val_int, val_str, val_bool, val_range_int}
use honeytrap.Ipp.Message.{Group, Message, decode_message}
use honeytrap.Ipp.Handler.{
  Job, set_value, and_run, set_values, set_print_job_response, no_job, operation_job, respond,
  ipp_handler, with_first,
}

-- Attributes that are no `valStr`.
abbrev pub is_text : Value → Bool
is_text (val_str tag name val) = true
is_text _ = false

Settled : Run Job → Type 0
Settled r = (r ≡ panics) ⊎ ((j : Job) × (r ≡ returns j))

with_first_cases : (val : List (List ℕ)) (f : List ℕ → Job) → Settled (with_first val f)
unfolding Settled
with_first_cases [] f = inl refl
with_first_cases (v ∷ vs) f = inr (f v, refl)

field_Settled :
    (b : Bool) (val : List (List ℕ)) (f : List ℕ → Job) (other : Run Job)
    → Settled other
    → Settled (if b then with_first val f else other)
field_Settled true val f other h = with_first_cases val f
field_Settled false val f other h = h

set_value_cases : (v : Value) (job : Job) → Settled (set_value v job)
unfolding Settled
set_value_cases (val_int tag name val) job = inl refl
set_value_cases (val_bool tag name val) job = inl refl
set_value_cases (val_range_int tag name low high) job = inl refl
set_value_cases (val_str tag name val) job =
    let named : String → Bool = λ key. text_eq name (codes key) in
    field_Settled (named "printer-uri") val (λ v. record job { uri = v }) _
      (field_Settled (named "requesting-user-name") val (λ v. record job { username = v }) _
        (field_Settled (named "document-format") val (λ v. record job { format = v }) _
          (field_Settled (named "job-name") val (λ v. record job { jobname = v }) (returns job)
            (inr (job, refl)))))

no_text_panics : (v : Value) (job : Job) → is_text v ≡ false → set_value v job ≡ panics
no_text_panics (val_int tag name val) job h = refl
no_text_panics (val_bool tag name val) job h = refl
no_text_panics (val_range_int tag name low high) job h = refl
no_text_panics (val_str tag name val) job h = absurd (ground arith)

set_values_panic :
    (vs ws : List Value) (v : Value) (job : Job)
    → is_text v ≡ false
    → set_values (vs ++ (v ∷ ws)) job ≡ panics
unfolding set_values Settled
set_values_panic [] ws v job h = ap (λ r. and_run r (λ j. set_values ws j)) (no_text_panics v job h)
set_values_panic (u ∷ vs) ws v job h = elim (set_value_cases u job) [
  | inl panicked ↦ rw panicked refl
  | inr (j, set) ↦ rw set (set_values_panic vs ws v j h)
]

first_operation :
    (before after : List Group) (g : Group) (job : Job)
    → All (λ b. (b.tag == 1) ≡ false) before
    → (g.tag == 1) ≡ true
    → set_print_job_response (before ++ (g ∷ after)) job ≡ set_values g.val job
unfolding set_print_job_response
first_operation [] after g job h e = rw e refl
first_operation (b ∷ before) after g job h e = rw (h.0) (first_operation before after g job h.1 e)

-- A request to print a job panics where its first operation attributes hold a value that is not a
-- string, at any place among them: the assertion of the type leaves a nil pointer, and its name is read.
pub ipp_handler_panics :
    (names : List Text) (limit : ℕ) (raw : List ℕ) (body : Message) (before after : List Group)
    (g : Group) (vs ws : List Value) (v : Value)
    → decode_message limit raw ≡ returns (some body)
    → body.status_code ≡ 2
    → body.attributes ≡ before ++ (g ∷ after)
    → All (λ b. (b.tag == 1) ≡ false) before
    → g.tag ≡ 1
    → g.val ≡ vs ++ (v ∷ ws)
    → is_text v ≡ false
    → ipp_handler names limit raw ≡ panics
unfolding ipp_handler respond operation_job
ipp_handler_panics names limit raw body before after g vs ws v h op groups others tag vals no_text =
    let job : set_print_job_response body.attributes no_job ≡ panics =
      ap (λ (b : List Group). set_print_job_response b no_job) groups
      ∙ first_operation before after g no_job others (ground arith)
      ∙ ap (λ (b : List Value). set_values b no_job) vals
      ∙ set_values_panic vs ws v no_job no_text in
    rw (h, op, job) refl
