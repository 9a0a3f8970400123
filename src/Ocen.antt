-- ===== src/Ocen.antt =====
-- libs/ocen_client: the records of models/journey.py, models/registry.py and auth/config.py that the
-- client exchanges with the OCEN network. A float, a date and a value of any type are their JSON text.
pub mod Base64
pub mod Token
pub mod Network
pub mod Delivery
pub mod Activity
pub mod Signer
use project_k_platform.Prelude.{ℕ, String, Bool, true, false, Option, none, some, List, [], ◌∷◌}
use project_k_platform.Prelude.Dict.{Dict}

pub record MetaData : Type 0 where
  pub version : String
  pub originator_org_id : String
  pub originator_participant_id : String
  pub timestamp : String
  pub trace_id : String
  pub request_id : String

pub record ProductData : Type 0 where
  pub product_id : String
  pub product_network_id : String

pub record Document : Type 0 where
  pub source : String
  pub source_identifier : String
  pub format : String
  pub reference : String
  pub type : String
  pub is_data_inline : Bool
  pub data_text : String

pub record Address : Type 0 where
  pub hba : String
  pub srl : String
  pub landmark : String
  pub als : String
  pub vtc : String
  pub pin_code : String
  pub po : String
  pub district : String
  pub state : String
  pub country : String

pub record ContactDetail : Type 0 where
  pub type : String
  pub description : String
  pub phone : String
  pub email : String
  pub address : Option Address

pub record Borrower : Type 0 where
  pub primary_id : String
  pub primary_id_type : String
  pub name : String
  pub category : String
  pub contact_details : List ContactDetail
  pub additional_identifiers : List (Dict String String)
  pub documents : List Document
  pub aa_identifier : String

pub record Duration : Type 0 where
  pub duration : ℕ
  pub unit : String

pub record Charge : Type 0 where
  pub charge_type : String
  pub data_values : Dict String String

pub record LoanTerms : Type 0 where
  pub requested_amount : String
  pub currency : String
  pub sanctioned_amount : String
  pub net_disbursed_amount : String
  pub interest_type : String
  pub interest_rate : String
  pub annual_percentage_rate : String
  pub tenure : Option Duration
  pub cooling_off_period : Option Duration
  pub charges : Dict String Charge

pub record LoanApplication : Type 0 where
  pub loan_application_id : String
  pub loan_application_status : String
  pub created_date : Option String
  pub borrower : Option Borrower
  pub guarantors : List Borrower
  pub applicants : List Borrower
  pub pledged_documents : List Document
  pub terms : Option LoanTerms
  pub description : String

pub record CreateLoanApplicationRequest : Type 0 where
  pub metadata : MetaData
  pub product_data : ProductData
  pub loan_applications : List LoanApplication

pub record ResponseStatus : Type 0 where
  pub status : String
  pub response_detail : String

pub record CreateLoanApplicationResponse : Type 0 where
  pub metadata : MetaData
  pub product_data : ProductData
  pub response : ResponseStatus
  pub loan_applications : List LoanApplication

pub record OcenAckResponse : Type 0 where
  pub error : Option String
  pub trace_id : String
  pub timestamp : String

pub record Participant : Type 0 where
  pub id : String
  pub name : String
  pub status : String

pub record ParticipantDetail : Type 0 where
  pub id : String
  pub participant_role : String
  pub kc_client_id : String
  pub public_key : String
  pub base_url : String
  pub is_approved : Bool
  pub participant : Option Participant

pub record ProductNetworkDetail : Type 0 where
  pub loan_agents : List ParticipantDetail
  pub lenders : List ParticipantDetail

pub record OcenConfig : Type 0 where
  pub client_id : String
  pub client_secret : String
  pub token_url : String
  pub registry_base_url : String
  pub heartbeat_url : String
  pub jwt_issuer : String
  pub participant_id : String
  pub org_id : String
  pub product_id : String
  pub product_network_id : String
  pub keypair_path : String

-- The defaults of the models, where a constructor is called with fewer arguments.
abbrev pub borrower_of : String → String → String → Borrower
borrower_of primary_id primary_id_type name = record {
  primary_id = primary_id;
  primary_id_type = primary_id_type;
  name = name;
  category = "ORGANIZATION";
  contact_details = [];
  additional_identifiers = [];
  documents = [];
  aa_identifier = "";
}

abbrev pub loan_application_of : String → Borrower → LoanApplication
loan_application_of loan_application_id borrower = record {
  loan_application_id = loan_application_id;
  loan_application_status = "CREATED";
  created_date = none;
  borrower = some borrower;
  guarantors = [];
  applicants = [];
  pledged_documents = [];
  terms = none;
  description = "";
}
