-- ===== src/QueryBuilder/Tests.antt =====
-- The query builder on a concrete description.
use ddag.Base.{◌≡◌, refl, List, [], ◌∷◌, Text, codes, Dict, lookup, insert, eq_text}
use ddag.Errors.{result, failed, query_validation_failed}
use ddag.QueryBuilder.Names.{safe_ident, safe_select}
use ddag.QueryBuilder.{QueryBuilderConfig, build}

abbrev orders : QueryBuilderConfig
orders = record {
  base_table = codes "orders";
  select = codes "orders.id" ∷ codes "sum(total) AS amount" ∷ [];
  joins =
      record {
        join_type = codes "left";
        table = codes "users";
        alias = codes "u";
        on = record { left = codes "orders.user_id"; operator = codes "="; right = codes "u.id" };
      }
      ∷ [];
  group_by = [];
  filters =
      record { name = codes "status"; column = codes "orders.status"; operators = codes "in" ∷ [] }
      ∷ [];
  sortable_columns = record { name = codes "id"; column = codes "orders.id" } ∷ [];
  default_sort = [];
}

abbrev asked : Dict (List Text)
asked = (codes "status", codes "in:new,x'; drop" ∷ []) ∷ (codes "sort", codes "-id" ∷ []) ∷ []

abbrev orders_sql : Text
orders_sql =
    codes
      "SELECT orders.id, sum(total) AS amount FROM orders LEFT JOIN users u ON orders.user_id = u.id WHERE orders.status IN (:ddag_filter_status_0, :ddag_filter_status_1) ORDER BY orders.id DESC"

abbrev orders_params : Dict Text
orders_params =
    (codes "ddag_filter_status_0", codes "new")
    ∷ (codes "ddag_filter_status_1", codes "x'; drop")
    ∷ []

built_orders : build orders asked ≡ result (orders_sql, orders_params)
unfolding build safe_ident safe_select eq_text lookup insert
built_orders = refl

unknown_filter : build orders ((codes "id", codes "1" ∷ []) ∷ []) ≡ failed query_validation_failed
unfolding build safe_ident safe_select eq_text
unknown_filter = refl
