-- ===== src/Retirement/CertificateService.antt =====
-- api/src/retirement/certificate.service.ts: the certificate of a retirement as a PDF, pinned to IPFS.
-- pdfkit draws a list of commands; its rendering, the formatting of dates and numbers, JSON and `fetch`
-- are parameters.
pub mod Upload
mod Tests
use carbonchain.Prelude.{
  ℕ, ◌*◌, String, ◌+++◌, Bool, true, false, Option, none, some, List, [], ◌∷◌, ◌++◌, if◌then◌else◌,
}
use carbonchain.Prelude.Decimal.{decimal}
use carbonchain.Prelude.Results.{Result, ok, err, error, Io, ◌>>=◌, lift, throw}

pub record CertificateData : Type 0 where
  pub retirement_id : String
  pub credit_id : String
  pub buyer : String
  pub tonnes : String
  pub reason : String
  pub timestamp : ℕ

pub record Config : Type 0 where
  pub pinata_api_key : String
  pub pinata_secret_key : String
  pub pinata_api_url : String

abbrev pub or_default : Option String → String → String
or_default none d = d
or_default (some s) d = s

-- The constructor, by the configured IPFS_API_KEY, IPFS_SECRET_KEY and IPFS_API_URL.
pub new_config : Option String → Option String → Option String → Config
new_config key secret url = record {
  pinata_api_key = or_default key "";
  pinata_secret_key = or_default secret "";
  pinata_api_url = or_default url "https://api.pinata.cloud";
}

pub data TextOption : Type 0 where
  plain centered continued : TextOption

-- The calls on the document. `move_down` counts tenths of a line, `rule` is the line from 60 to 535 at
-- the current height in the colour.
pub data Command : Type 0 where
  font_size : ℕ → Command
  font : String → Command
  fill_color : String → Command
  draw_text : String → TextOption → Command
  move_down : ℕ → Command
  rule : String → Command

abbrev pub field : String → String → List Command
field label value =
    font "Helvetica-Bold"
    ∷ draw_text (label +++ ":") continued
    ∷ font "Helvetica"
    ∷ draw_text ("  " +++ value) plain
    ∷ move_down 4
    ∷ []

-- The message of the answer of Pinata, which is read as text or as JSON.
pub record Response : Type 0 where
  pub is_ok : Bool
  pub status : ℕ
  pub body_text : Result String
  pub ipfs_hash : Result String

-- The multipart request.
pub record UploadRequest (Buffer : Type 0) : Type 0 where
  pub url : String
  pub api_key : String
  pub secret_key : String
  pub file : Buffer
  pub file_type : String
  pub file_name : String
  pub metadata : String

pub record Platform : Type 1 where
  pub Buffer : Type 0
  pub Net : Type 0
  pub to_utc_string : ℕ → String
  pub in_tonnes : String → String
  pub render : List Command → Result Buffer
  pub metadata_json : String → String → String
  pub fetch : UploadRequest Buffer → Net → Result Response × Net

module _ (p : Platform) (config : Config) where
  pub header : List Command
  header =
      font_size 24
      ∷ font "Helvetica-Bold"
      ∷ draw_text "Carbon Credit Retirement Certificate" centered
      ∷ move_down 5
      ∷ font_size 12
      ∷ font "Helvetica"
      ∷ fill_color "#555555"
      ∷ draw_text "Issued by CarbonChain on the Stellar Network" centered
      ∷ move_down 15
      ∷ rule "#cccccc"
      ∷ move_down 10
      ∷ []

  pub body : CertificateData → List Command
  body d =
      fill_color "#000000"
      ∷ font_size 12
      ∷ font "Helvetica-Bold"
      ∷ (field "Retirement ID" d.retirement_id
          ++ field "Credit ID" d.credit_id
          ++ field "Buyer" d.buyer
          ++ field "Tonnes Retired" (p.in_tonnes d.tonnes +++ " tonne(s)")
          ++ field "Reason" d.reason
          ++ field "Retired At" (p.to_utc_string (d.timestamp * 1000)))

  pub footer : List Command
  footer =
      move_down 20
      ∷ rule "#cccccc"
      ∷ move_down 5
      ∷ font_size 9
      ∷ fill_color "#888888"
      ∷ draw_text
          "This certificate is permanently recorded on the Stellar blockchain and cannot be altered."
          centered
      ∷ []

  pub build_pdf : CertificateData → Result p.Buffer
  unfolding header body footer
  build_pdf d = p.render (header ++ body d ++ footer)

  pub upload_request : p.Buffer → String → UploadRequest p.Buffer
  upload_request pdf retirement_id = record {
    url = config.pinata_api_url +++ "/pinning/pinFileToIPFS";
    api_key = config.pinata_api_key;
    secret_key = config.pinata_secret_key;
    file = pdf;
    file_type = "application/pdf";
    file_name = "retirement-certificate-" +++ (retirement_id +++ ".pdf");
    metadata = p.metadata_json ("retirement-certificate-" +++ retirement_id) retirement_id;
  }

  abbrev pub upload_failed : Response → Result String → Result String
  upload_failed r (ok t) =
      err (error ("Pinata upload failed (" +++ (decimal r.status +++ ("): " +++ t))))
  upload_failed r (err e) = err e

  abbrev pub hash_of : Response → Result String
  hash_of r = if r.is_ok then r.ipfs_hash else upload_failed r r.body_text

  pub pin_to_ipfs : p.Buffer → String → Io p.Net String
  unfolding upload_request
  pin_to_ipfs pdf retirement_id = do
    response ← p.fetch (upload_request pdf retirement_id)
    lift (hash_of response)

  pub generate_and_pin : CertificateData → Io p.Net String
  unfolding build_pdf pin_to_ipfs
  generate_and_pin d = do pdf ← lift (build_pdf d); pin_to_ipfs pdf d.retirement_id
