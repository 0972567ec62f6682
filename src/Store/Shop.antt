-- ===== src/Store/Shop.antt =====
-- The tables of backend/migrations that sales, catalog, customers, identity and jobs work on. Margins
-- are whole hundredths of a percent, as their columns `numeric(5,2)` hold them; names, codes and
-- slugs that no modelled code reads are left out.
use pontoqap.Base.{ℕ, Bool, Option, List}
use pontoqap.Base.Int.{ℤ}

-- `products`.
pub record Product : Type 0 where
  pub id : ℕ
  pub category_id : Option ℕ
  pub margin_percent : ℤ
  pub promo_active : Bool
  pub promo_margin_percent : Option ℤ
  pub promo_quantity_total : ℕ
  pub promo_quantity_remaining : ℕ
  pub active : Bool
  pub visible : Bool

-- `categories`.
pub record Category : Type 0 where
  pub id : ℕ
  pub active : Bool

-- `price_history`.
pub record PriceChange : Type 0 where
  pub sku_id : ℕ
  pub previous_price_cents : ℕ
  pub new_price_cents : ℕ
  pub changed_by : ℕ

-- `collaborator_categories`.
pub record CollaboratorCategory : Type 0 where
  pub id : ℕ
  pub margin_percent : ℤ
  pub active : Bool

-- `customer_limit_history`.
pub record LimitChange : Type 0 where
  pub customer_id : ℕ
  pub previous_limit_cents : ℕ
  pub new_limit_cents : ℕ
  pub changed_by : ℕ

pub data CartStatus : Type 0 where
  active_cart checked_out abandoned : CartStatus

-- `carts`.
pub record Cart : Type 0 where
  pub id : ℕ
  pub customer_id : ℕ
  pub status : CartStatus

-- `cart_items`, unique by cart and item.
pub record CartItem : Type 0 where
  pub cart_id : ℕ
  pub sku_id : ℕ
  pub quantity : ℕ

pub data OrderStatus : Type 0 where
  confirmed_order cancelled_order : OrderStatus

-- `orders`; `idempotency_key` is the text that the client sends, and is not empty.
pub record Order : Type 0 where
  pub id : ℕ
  pub customer_id : ℕ
  pub status : OrderStatus
  pub total_cents : ℕ
  pub idempotency_key : ℕ
  pub confirmed_at : ℕ
  pub cancelled_at : Option ℕ

-- `order_items`.
pub record OrderItem : Type 0 where
  pub order_id : ℕ
  pub sku_id : ℕ
  pub unit_price_cents : ℕ
  pub quantity : ℕ
  pub total_cents : ℕ

pub record Shop : Type 0 where
  pub products : List Product
  pub categories : List Category
  pub price_history : List PriceChange
  pub collaborator_categories : List CollaboratorCategory
  pub limit_history : List LimitChange
  pub carts : List Cart
  pub cart_items : List CartItem
  pub orders : List Order
  pub order_items : List OrderItem
  pub default_margin_percent : Option ℤ

pub data UserStatus : Type 0 where
  active_user invited pending_email suspended blocked_user temporarily_blocked : UserStatus
  disabled inactive : UserStatus

-- `users`; `email` stands for the address without regard to case.
pub record User : Type 0 where
  pub id : ℕ
  pub email : ℕ
  pub password_hash : ℕ
  pub status : UserStatus
  pub mfa_secret : ℕ
  pub mfa_enabled : Bool
  pub failed_login_attempts : ℕ
  pub locked_until : Option ℕ
  pub last_login_at : Option ℕ
  pub email_verified_at : Option ℕ

pub data Audience : Type 0 where
  store_audience admin_audience : Audience

-- `sessions`.
pub record Session : Type 0 where
  pub id : ℕ
  pub user_id : ℕ
  pub token_hash : ℕ
  pub audience : Audience
  pub expires_at : ℕ
  pub revoked_at : Option ℕ

pub data Role : Type 0 where
  system_admin manager inventory_operator finance_operator customer_role : Role

-- `user_roles` with the code of the role.
pub record UserRole : Type 0 where
  pub user_id : ℕ
  pub code : Role

-- `email_verification_tokens`.
pub record VerificationToken : Type 0 where
  pub id : ℕ
  pub user_id : ℕ
  pub token_hash : ℕ
  pub expires_at : ℕ
  pub used_at : Option ℕ

-- `admin_invitations`, with the code of the role that `role_id` names.
pub record Invitation : Type 0 where
  pub id : ℕ
  pub email : ℕ
  pub role : Role
  pub token_hash : ℕ
  pub expires_at : ℕ
  pub invited_by : ℕ
  pub accepted_at : Option ℕ
  pub revoked_at : Option ℕ

pub record Accounts : Type 0 where
  pub users : List User
  pub sessions : List Session
  pub user_roles : List UserRole
  pub tokens : List VerificationToken
  pub invitations : List Invitation

pub data JobType : Type 0 where
  monthly_close : ℕ → ℕ → JobType
  mark_overdue : JobType
  unknown_job : JobType

pub data JobStatus : Type 0 where
  waiting running_job done_job failed_job : JobStatus

-- `jobs`, with what the runner reads of the payload.
pub record Job : Type 0 where
  pub id : ℕ
  pub job_type : JobType
  pub status : JobStatus
  pub attempts : ℕ
  pub available_at : ℕ
  pub locked_by : Option ℕ

-- `outbox_events`; `content` stands for the event type and the payload.
pub record OutboxEvent : Type 0 where
  pub id : ℕ
  pub content : ℕ
  pub status : JobStatus
  pub attempts : ℕ
  pub available_at : ℕ

pub record Queue : Type 0 where
  pub jobs : List Job
  pub outbox : List OutboxEvent
