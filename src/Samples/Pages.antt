-- ===== src/Samples/Pages.antt =====
-- A SigNoz whose list has one entry, on its first page.
use signoz_operator.Prelude.{
  ℕ, zero, suc, String, ◌≡◌, refl, Bool, true, some, List, [], ◌∷◌, ℤ, str_eq, if◌then◌else◌, take,
  drop, drop_none, concat, RawMessage,
}
use signoz_operator.Errors.{ok, new_from_http_response}
use signoz_operator.Adapters.Exchange.{Exchanged, SigNoz, exchange, accepted, of_status}
use signoz_operator.Adapters.Find.{page_request}
use signoz_operator.Adapters.Find.Pages.{IsBounded}
use signoz_operator.Adapters.Find.Whole.{IsPage, Serves}

pub data Value : Type 0 where
  page entries : Bool → Value
  thing total : Value
  text : String → Value

abbrev get_value : Value → String → Value
get_value (page b) k = if str_eq k "total" then total else entries b
get_value thing k = if str_eq k "id" then text "7" else text "viewer"
get_value v k = v

abbrev array_of : Value → List Value
array_of (entries true) = thing ∷ []
array_of _ = []

abbrev text_of : Value → String
text_of (text s) = s
text_of _ = ""

abbrev digits : ℕ → String
digits zero = "0"
digits (suc n) = "n"

abbrev body_of : String → RawMessage
body_of path = if str_eq path "/things?limit=n&offset=0" then "first" else "later"

abbrev pub shop : SigNoz Value
shop = record {
  exchange = λ h request. ok (record { status = 200; body = body_of request.path });
  gjson = record {
    get_bytes = λ body k. page (str_eq body "first");
    get = get_value;
    exists = λ v. true;
    is_array = λ v. true;
    array = array_of;
    text = text_of;
    int = λ v. ℤ.pos 1;
    raw = λ v. "";
  };
  formatting = record {
    decimal = digits;
    quote = λ s. s;
    rfc3339 = λ t. "";
    compact = λ body. some body;
  };
}

abbrev pub things : List Value
things = thing ∷ []

pub shop-IsBounded : IsBounded shop 1
shop-IsBounded h request r e = refl

body_at : ℕ → List Exchanged → RawMessage
body_at zero h = "first"
body_at (suc n) h = "later"

answers_page :
    (offset : ℕ) (h : List Exchanged)
    → (exchange shop (page_request shop "/things" offset) h).0 ≡ ok (body_at offset h)
unfolding exchange accepted of_status new_from_http_response page_request concat body_at
answers_page zero h = refl
answers_page (suc n) h = refl

body_at-IsPage :
    (offset : ℕ) (h : List Exchanged) → IsPage shop "dashboards" things offset (body_at offset h)
unfolding body_at take drop
body_at-IsPage zero h = record {
  data_exists = refl;
  list_is_array = refl;
  entries = refl;
  total = refl;
}
body_at-IsPage (suc n) h = record {
  data_exists = refl;
  list_is_array = refl;
  entries = rw (drop_none n) refl;
  total = refl;
}

pub shop-Serves : Serves shop "/things" "dashboards" things
shop-Serves = record { body = body_at; answers = answers_page; is_page = body_at-IsPage }
